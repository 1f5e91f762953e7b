-- ===== src/Examples/StripeEvents.antt =====
-- The consumer of Stripe's events on a stream in memory.
use block_feed_prototype.Prelude.{
  ◌≡◌, refl, Bool, true, false, not, ◌&&◌, Option, none, some, List, [], ◌∷◌, String, ◌==◌,
  string_eq, in_array, if◌then◌else◌,
}
use block_feed_prototype.Promise.{M, Result, ok, err, other, OnOk, Post, Fails}
use block_feed_prototype.Caching.Types.{AsyncCache}
use block_feed_prototype.Redis.{Commands}
use block_feed_prototype.Stripe.Types.{Session}
use block_feed_prototype.StripeWebhook.Events.{
  Event, customer_deleted, Texts, handle_customer_deleted,
}
use block_feed_prototype.StripeWebhook.Reply.{
  Reply, text, items, Replies, nil, cons, Printing, parse_messages, need_text, need_array,
}
use block_feed_prototype.StripeWebhook.Consumer.{consume_messages, consume_from}
use block_feed_prototype.StripeWebhook.Acknowledged.{IsStream, consume_messages-acknowledged}
use block_feed_prototype.StripeWebhook.Cursor.{consume_from-forward}
use block_feed_prototype.StripeWebhook.Plugin.{on_request}
use block_feed_prototype.Js.Map.{keys}
use block_feed_prototype.StripeWebhook.Reply.{from_entries}
use block_feed_prototype.StripeWebhook.Consumer.{Processed}
use block_feed_prototype.StripeWebhook.Yields.{yielded_ids, consume_messages_total}
use block_feed_prototype.StripeWebhook.Verified.{Outcome, on_request-Outcome}
use block_feed_prototype.StripeWebhook.Deletion.{
  Forgotten, IsTransaction, handle_customer_deleted-Forgotten,
}
use block_feed_prototype.Examples.World.{
  World, start, stripe, sub, session_table, session_table-IsTable, sessions_of_world,
}

pub record Stream : Type 0 where
  pub pending : String → Bool
  pub stored : String → Bool

abbrev pending_of : Stream → String → Bool
pending_of w = w.pending

abbrev stored_of : Stream → String → Bool
stored_of w = w.stored

abbrev dropped : (String → Bool) → List String → String → Bool
dropped held ids id = held id && not (in_array id ids)

abbrev commands : Commands Stream
commands = record {
  smismember = λ k ids w. (ok [], w);
  sadd = λ k ids w. (ok 0, w);
  zadd = λ k es w. (ok 0, w);
  xack = λ s g ids w. (ok 1, record w { pending = dropped w.pending ids });
  xdel = λ s ids w. (ok 1, record w { stored = dropped w.stored ids });
}

commands-IsStream : IsStream commands "group" pending_of stored_of
commands-IsStream = record {
  xack_value = λ ids w. (λ id. refl, refl);
  xdel_value = λ ids w. (λ id. refl, refl);
}

abbrev printing : Printing
printing = record {
  show = λ r. "";
  parse_event = λ t. ok (customer_deleted t);
  error_message = λ e. "";
}

-- A handler that always fails.
abbrev failing : Event → M Stream (Unit {0})
failing event w = (err (other "down"), w)

abbrev message : Reply
message = items (cons (text "1-0") (cons (items (cons (text "event") (cons (text "cus") nil))) nil))

abbrev full : Stream
full = record { pending = λ id. true; stored = λ id. true }

parsed :
    parse_messages printing (cons message nil)
    ≡ ok (("1-0", ("event", customer_deleted "cus")) ∷ [])
unfolding parse_messages need_text need_array
parsed = refl

consume_messages-acknowledged_example :
    Post (consume_messages printing failing commands "group" ">" (cons message nil) full) (λ r w'.
      (r.cursor_id ≡ ">")
      × ((id : String) → pending_of w' id ≡ (pending_of full id && not (in_array id ("1-0" ∷ []))))
      × ((id : String) → stored_of w' id ≡ (stored_of full id && not (in_array id ("1-0" ∷ [])))))
consume_messages-acknowledged_example =
    consume_messages-acknowledged printing failing commands "group" pending_of stored_of
      commands-IsStream (λ e w. refl) (λ e w. refl) ">" message nil
      (("1-0", ("event", customer_deleted "cus")) ∷ []) full parsed

-- A read that finds nothing in the backlog, and waits in vain for anything new.
abbrev read : String → M Stream (Option Replies)
read cursor_id w = if cursor_id == ">" then (ok none, w) else (
  ok (
      some
        (cons (items (cons (text "block-feed:stripe:webhook-event") (cons (items nil) nil))) nil)),
  w,
)

consume_from-forward_example :
    OnOk
      (consume_from printing failing commands "group" read (λ w. false) 3 ">" full).0
      (λ r. r.0 ≡ ">")
unfolding string_eq
consume_from-forward_example =
    consume_from-forward printing failing commands "group" read (λ w. refl) (λ w. false) 3 full

abbrev texts : Texts
texts = record { no_user_id = other "userId"; json_of_event = λ e. ""; json_of_errors = λ es. "" }

-- A cache that cannot be reached.
abbrev cache : AsyncCache World Session
cache = record {
  get = λ key w. (err (other "down"), w);
  invalidate = λ key w. (err (other "down"), w);
}

abbrev rolled : World → Result (Unit {0}) × World → Result (Unit {0}) × World
rolled w (ok a, w') = (ok a, w')
rolled w (err e, w') = (err e, w)

abbrev transaction : M World (Unit {0}) → M World (Unit {0})
transaction body w = rolled w (body w)

rolled_back :
    (w : World) (r : Result (Unit {0}) × World)
    → Fails (rolled w r)
    → sessions_of_world (rolled w r).1 ≡ sessions_of_world w
rolled_back w (ok a, w') h = cc h.1
rolled_back w (err e, w') h = refl

rolled_committed :
    (w : World) (r : Result (Unit {0}) × World) → OnOk (rolled w r).0 (λ _. rolled w r ≡ r)
rolled_committed w (ok a, w') = refl
rolled_committed w (err e, w') = tt

transaction-IsTransaction : IsTransaction sessions_of_world transaction
transaction-IsTransaction = record {
  rolled_back = λ body w. rolled_back w (body w);
  committed = λ body w. rolled_committed w (body w);
}

handle_customer_deleted-Forgotten_example :
    Forgotten texts cache stripe session_table transaction sessions_of_world session_table-IsTable
      transaction-IsTransaction
      (λ key w. refl)
      (sub ∷ [])
      start
      (handle_customer_deleted texts cache stripe session_table transaction "cus" start)
handle_customer_deleted-Forgotten_example =
    handle_customer_deleted-Forgotten texts cache stripe session_table transaction sessions_of_world
      session_table-IsTable transaction-IsTransaction (λ key w. refl) "cus" (sub ∷ []) start start
      refl refl

-- A client that accepts every signature, and a stream that takes every event.
abbrev construct_event : String → String → String → Result Event
construct_event body sig secret = ok (customer_deleted body)

abbrev produce : Event → M Stream String
produce event w = (ok "1-0", record w { stored = λ id. true })

on_request-Outcome_example :
    Outcome construct_event produce "whsec"
      (some "sig")
      (some "cus")
      full
      (on_request construct_event produce "whsec" (some "sig") (some "cus") full)
on_request-Outcome_example =
    on_request-Outcome construct_event produce "whsec" (some "sig") (some "cus") full

abbrev parsed_messages : List (String × (String × Event))
parsed_messages = ("1-0", ("event", customer_deleted "cus")) ∷ []

consume_messages_total_example :
    (y : Option (List Processed)) × (w' : Stream) × (consume_messages printing failing commands
        "group" ">"
        (cons message nil)
        full
      ≡ (ok (record { cursor_id = ">"; yielded = y }), w'))
    × (yielded_ids y ≡ keys (from_entries [] parsed_messages))
consume_messages_total_example =
    consume_messages_total printing failing commands "group"
      (λ ids w. (1, record w { pending = dropped w.pending ids }, refl))
      (λ ids w. (1, record w { stored = dropped w.stored ids }, refl)) ">" message nil
      (("1-0", ("event", customer_deleted "cus")) ∷ []) full parsed
