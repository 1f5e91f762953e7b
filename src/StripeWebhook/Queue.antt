-- ===== src/StripeWebhook/Queue.antt =====
-- The stream of events as a queue, and the requests that the plugin puts on it.
use mathlib.Core.List.{append_assoc, append-nil}
use block_feed_prototype.Prelude.{
  ◌≡◌, refl, Option, none, some, List, [], ◌∷◌, ◌++◌, String, string_eq,
}
use block_feed_prototype.Promise.{M, Result, ok, ◌>>=◌, pure}
use block_feed_prototype.Stripe.Provider.{webhook_event_stream_name, event_field}
use block_feed_prototype.StripeWebhook.Events.{Event}
use block_feed_prototype.StripeWebhook.Producer.{produce}
use block_feed_prototype.StripeWebhook.Plugin.{Response, checked, get_event, respond, on_request}
use block_feed_prototype.StripeWebhook.Reply.{Reply, text, items, Replies, nil, cons}

-- A message of a stream: its identifier, and its field with the value.
abbrev pub Message : Type 0
Message = String × (String × String)

-- The reply of `XREADGROUP` for one message of the stream.
abbrev pub message_reply : Message → Reply
message_reply m =
    items (cons (text m.0) (cons (items (cons (text m.1.0) (cons (text m.1.1) nil))) nil))

abbrev pub stream_reply : Message → Replies
stream_reply m =
    cons
      (items
        (cons (text webhook_event_stream_name) (cons (items (cons (message_reply m) nil)) nil)))
      nil

-- `unread` are the messages that the consumer group has not been given yet: `XADD` appends to them, and
-- a read of new messages that asks for one gives the first.
pub record IsQueue {W : Type 0} (xadd : String → String → String → String → M W String)
    (xreadgroup : String → M W (Option Replies)) (unread : W → List Message) : Type 0 where
  pub xadd_value :
      (field value : String) (w : W)
      → (id : String) × (w' : W) × (xadd webhook_event_stream_name "*" field value w ≡ (ok id, w'))
        × (unread w' ≡ unread w ++ (id, (field, value)) ∷ [])
  pub xreadgroup_value :
      (m : Message) (rest : List Message) (w : W)
      → unread w ≡ m ∷ rest
      → (w' : W) × (xreadgroup ">" w ≡ (ok (some (stream_reply m)), w')) × (unread w' ≡ rest)

module _ {W : Type 0} (xadd : String → String → String → String → M W String)
    (stringify : Event → String) (construct_event : String → String → String → Result Event)
    (secret : String) where
  -- Requests with a signature and a body, one after the other.
  abbrev pub serve : List (String × String) → M W (Unit {0})
  serve [] = pure tt
  serve ((sig, body) ∷ requests) =
      on_request construct_event (produce xadd stringify) secret (some sig) (some body) >>= λ _.
      serve requests

  abbrev pub constructed : String × String → Result Event
  constructed (sig, body) = construct_event body sig secret

  -- The messages of these events, with some identifiers.
  abbrev pub Holds : List Message → List Event → Type 0
  Holds [] [] = Unit
  Holds [] (e ∷ es) = ⊥
  Holds (m ∷ ms) [] = ⊥
  Holds (m ∷ ms) (e ∷ es) = (m.1 ≡ (event_field, stringify e)) × Holds ms es

  Holds-append :
      (ms : List Message) (es : List Event) (id : String) (e : Event)
      → Holds ms es
      → Holds (ms ++ (id, (event_field, stringify e)) ∷ []) (es ++ e ∷ [])
  Holds-append [] [] id e h = (refl, tt)
  Holds-append [] (e' ∷ es) id e h = elim h [ ]
  Holds-append (m ∷ ms) [] id e h = elim h [ ]
  Holds-append (m ∷ ms) (e' ∷ es) id e h = (h.0, Holds-append ms es id e h.1)

  -- Stripe's client accepts the requests as these events, in order.
  abbrev pub Accepts : List (String × String) → List Event → Type 0
  Accepts [] [] = Unit
  Accepts [] (e ∷ es) = ⊥
  Accepts (r ∷ rs) [] = ⊥
  Accepts (r ∷ rs) (e ∷ es) = (constructed r ≡ ok e) × Accepts rs es

  module _ (xreadgroup : String → M W (Option Replies)) (unread : W → List Message)
      (queue : IsQueue xadd xreadgroup unread) where
    request_next :
        (sig body : String) (e : Event) (es : List Event) (w : W)
        → constructed (sig, body) ≡ ok e
        → Holds (unread w) es
        → (a : Option Response) × (w' : W) × (on_request construct_event
              (produce xadd stringify)
              secret
              (some sig)
              (some body)
              w
            ≡ (ok a, w'))
          × Holds (unread w') (es ++ e ∷ [])
    unfolding on_request get_event checked respond produce
    request_next sig body e es w c h =
        let (id, w', added, now) = queue.xadd_value event_field (stringify e) w in
        (
          some (record { status = 200; msg = none }),
          w',
          rw (c, added) refl,
          rw now (Holds-append (unread w) es id e h),
        )

    pub serve-Holds :
        (requests : List (String × String)) (events es : List Event) (w : W)
        → Accepts requests events
        → Holds (unread w) es
        → (w' : W) × (serve requests w ≡ (ok tt, w')) × Holds (unread w') (es ++ events)
    serve-Holds [] [] es w a h = (w, refl, rw (append-nil es) h)
    serve-Holds [] (e ∷ events) es w a h = elim a [ ]
    serve-Holds (r ∷ requests) [] es w a h = elim a [ ]
    serve-Holds ((sig, body) ∷ requests) (e ∷ events) es w a h =
        let (x, w1, answered, now) = request_next sig body e es w a.0 h in
        let (w2, served, later) = serve-Holds requests events (es ++ e ∷ []) w1 a.1 now in
        (w2, rw answered served, rw (← append_assoc es (e ∷ []) events) later)
