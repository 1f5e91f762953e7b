-- ===== src/Examples/Delivered.antt =====
-- Two requests, and the rounds of the consumer after them, on a queue in memory.
use block_feed_prototype.Prelude.{
  ◌≡◌, refl, false, Option, none, some, List, [], ◌∷◌, ◌++◌, map, String, string_eq,
}
use block_feed_prototype.Promise.{M, Result, ok, err, other}
use block_feed_prototype.Redis.{Commands}
use block_feed_prototype.StripeWebhook.Events.{Event, customer_deleted}
use block_feed_prototype.StripeWebhook.Reply.{Replies, Printing}
use block_feed_prototype.StripeWebhook.Consumer.{Processed, consume_from}
use block_feed_prototype.StripeWebhook.Queue.{Message, IsQueue, stream_reply, serve}
use block_feed_prototype.StripeWebhook.Delivered.{serve-consumed}

abbrev Log : Type 0
Log = List Message

abbrev xadd : String → String → String → String → M Log String
xadd stream id field value w = (ok "1-0", w ++ ("1-0", (field, value)) ∷ [])

abbrev xreadgroup : String → M Log (Option Replies)
xreadgroup cursor_id [] = (ok none, [])
xreadgroup cursor_id (m ∷ ms) = (ok (some (stream_reply m)), ms)

read_first :
    (m : Message) (rest w : Log)
    → w ≡ m ∷ rest
    → (w' : Log) × (xreadgroup ">" w ≡ (ok (some (stream_reply m)), w')) × (w' ≡ rest)
read_first m rest w e = (rest, rw e refl, refl)

abbrev unread : Log → List Message
unread w = w

memory-IsQueue : IsQueue xadd xreadgroup unread
memory-IsQueue = record {
  xadd_value = λ field value w. ("1-0", w ++ ("1-0", (field, value)) ∷ [], refl, refl);
  xreadgroup_value = read_first;
}

abbrev commands : Commands Log
commands = record {
  smismember = λ k ids w. (ok [], w);
  sadd = λ k ids w. (ok 0, w);
  zadd = λ k es w. (ok 0, w);
  xack = λ s g ids w. (ok 1, w);
  xdel = λ s ids w. (ok 1, w);
}

abbrev stringify : Event → String
stringify (customer_deleted id) = id
stringify _ = ""

abbrev construct_event : String → String → String → Result Event
construct_event body sig secret = ok (customer_deleted body)

abbrev printing : Printing
printing = record {
  show = λ r. "";
  parse_event = λ t. ok (customer_deleted t);
  error_message = λ e. "";
}

-- Handlers that always fail.
abbrev failing : Event → M Log (Unit {0})
failing event w = (err (other "down"), w)

serve-consumed_example :
    (w1 : Log) × (serve xadd stringify construct_event "whsec"
        (("s", "cus_1") ∷ ("s", "cus_2") ∷ [])
        []
      ≡ (ok tt, w1))
    × (yields : List (List Processed)) × (w2 : Log) × (consume_from printing failing commands
          "group" xreadgroup
          (λ w. false)
          2
          ">"
          w1
        ≡ (ok (">", yields), w2))
    × (map (map (λ p. p.event)) yields
        ≡ (customer_deleted "cus_1" ∷ []) ∷ (customer_deleted "cus_2" ∷ []) ∷ [])
    × (w2 ≡ [])
serve-consumed_example =
    serve-consumed xadd stringify construct_event "whsec" printing failing commands "group"
      xreadgroup unread memory-IsQueue (λ ids w. (1, w, refl)) (λ ids w. (1, w, refl))
      (λ ids w. refl) (λ ids w. refl) (λ e w. refl) (("s", "cus_1") ∷ ("s", "cus_2") ∷ [])
      (customer_deleted "cus_1" ∷ customer_deleted "cus_2" ∷ []) [] refl (refl, (refl, tt))
      (refl, (refl, tt))
