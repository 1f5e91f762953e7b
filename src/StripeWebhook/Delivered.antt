-- ===== src/StripeWebhook/Delivered.antt =====
-- From the request to the consumer: events go through the stream in the order of their requests.
use block_feed_prototype.Prelude.{
  ◌≡◌, refl, sym, ap, ◌∙◌, false, Option, some, List, [], ◌∷◌, map, length, All, String, string_eq,
}
use block_feed_prototype.Promise.{M, Result, ok, Failure, Keeps}
use block_feed_prototype.Js.Map
use block_feed_prototype.Js.Map.{keys}
use block_feed_prototype.Redis.{Commands, xackdel}
use block_feed_prototype.Stripe.Provider.{webhook_event_stream_name, event_field}
use block_feed_prototype.StripeWebhook.Events.{Event}
use block_feed_prototype.StripeWebhook.Reply.{
  Replies, Printing, need_text, need_array, parse_stream, parse_message, parse_messages,
  from_entries,
}
use block_feed_prototype.StripeWebhook.Consumer.{
  Processed, error_of, process_messages, acknowledge, process, consume_parsed, consume_messages,
  consume_stream, consume_streams, consume_reply, round, consume_from,
}
use block_feed_prototype.StripeWebhook.Yields.{Succeeds}
use block_feed_prototype.StripeWebhook.Queue.{Message, IsQueue, serve, Holds, Accepts, serve-Holds}

module _ {W : Type 0} (xadd : String → String → String → String → M W String)
    (stringify : Event → String) (construct_event : String → String → String → Result Event)
    (secret : String) where
  module _ (printing : Printing) (consume_event : Event → M W (Unit {0})) (redis : Commands W)
      (group : String) (xreadgroup : String → M W (Option Replies)) (unread : W → List Message)
      (queue : IsQueue xadd xreadgroup unread) where
    module _
        (acks : (ids : List String) → Succeeds (redis.xack webhook_event_stream_name group ids))
        (deletes : (ids : List String) → Succeeds (redis.xdel webhook_event_stream_name ids))
        (kept_ack : (ids : List String)
          → Keeps unread (redis.xack webhook_event_stream_name group ids))
        (kept_delete : (ids : List String)
          → Keeps unread (redis.xdel webhook_event_stream_name ids))
        (kept : (event : Event) → Keeps unread (consume_event event)) where
      acknowledge_next :
          (id : String) (p : Processed) (w : W)
          → (w' : W) × (acknowledge printing consume_event redis group ">" ((id, p) ∷ []) w
              ≡ (ok (record { cursor_id = ">"; yielded = some (p ∷ []) }), w'))
            × (unread w' ≡ unread w)
      unfolding acknowledge xackdel
      acknowledge_next id p w =
          let (n, w1, acked) = acks (id ∷ []) w in
          let (m, w2, deleted) = deletes (id ∷ []) w1 in
          (
            w2,
            rw (acked, deleted) refl,
            ap (λ r. unread r.1) (sym deleted)
                ∙ kept_delete (id ∷ []) w1
                ∙ ap (λ r. unread r.1) (sym acked)
                ∙ kept_ack (id ∷ []) w,
          )

      round_next :
          (m : Message) (rest : List Message) (e : Event) (w : W)
          → unread w ≡ m ∷ rest
          → m.1 ≡ (event_field, stringify e)
          → printing.parse_event (stringify e) ≡ ok e
          → (error : Option Failure) × (w' : W) × (round printing consume_event redis group
                xreadgroup ">" w
              ≡ (
                ok (record {
                  cursor_id = ">";
                  yielded = some (record { id = m.0; event = e; error = error } ∷ []);
                }),
                w',
              ))
            × (unread w' ≡ rest)
      unfolding round consume_reply consume_streams consume_stream consume_messages consume_parsed
          process process_messages parse_stream parse_message parse_messages need_text need_array
          from_entries Map.set string_eq
      round_next m rest e w u d json =
          let (w1, read, left) = queue.xreadgroup_value m rest w u in
          let r = consume_event e w1 in
          let error = error_of printing consume_event m.0 e r.0 in
          let (w2, acked, same) =
            acknowledge_next m.0 (record { id = m.0; event = e; error = error }) r.1 in
          let parsed : printing.parse_event m.1.1 ≡ ok e =
            ap (λ x. printing.parse_event x.1) d ∙ json in
          (error, w2, rw (read, parsed) acked, same ∙ kept e w1 ∙ left)

      -- The events of the rounds.
      abbrev pub events_of : List (List Processed) → List (List Event)
      events_of = map (map (λ p. p.event))

      consume_from_each :
          (ms : List Message) (es : List Event) (w : W)
          → unread w ≡ ms
          → Holds xadd stringify construct_event secret ms es
          → All (λ e. printing.parse_event (stringify e) ≡ ok e) es
          → (yields : List (List Processed)) × (w' : W) × (consume_from printing consume_event redis
                group xreadgroup
                (λ w. false)
                (length es)
                ">"
                w
              ≡ (ok (">", yields), w'))
            × (events_of yields ≡ map (λ e. e ∷ []) es)
            × (unread w' ≡ [])
      unfolding consume_from
      consume_from_each [] [] w u h json = ([], w, refl, refl, u)
      consume_from_each [] (e ∷ es) w u h json = elim h [ ]
      consume_from_each (m ∷ ms) [] w u h json = elim h [ ]
      consume_from_each (m ∷ ms) (e ∷ es) w u h json =
          let (error, w1, first, left) = round_next m ms e w u h.0 json.0 in
          let (yields, w2, later, events, none_left) = consume_from_each ms es w1 left h.1 json.1 in
          (
            (record { id = m.0; event = e; error = error } ∷ []) ∷ yields,
            w2,
            rw (first, later) refl,
            ap (◌∷◌ (e ∷ [])) events,
            none_left,
          )

      -- Requests that Stripe's client accepts are all answered, and their events are then consumed in
      -- the order of the requests, each once and as it was sent, in as many rounds as there are
      -- requests: if the group has no unread message before, the consumer is past its backlog and is
      -- not aborted, the events are parsed from their JSON as themselves, adding a message, reading an
      -- unread one, acknowledging and deleting never fail, and neither acknowledging, deleting nor the
      -- handlers put messages on the stream or take any away. This holds whatever the handlers do with
      -- the events.
      pub serve-consumed :
          (requests : List (String × String)) (events : List Event) (w : W)
          → unread w ≡ []
          → Accepts xadd stringify construct_event secret requests events
          → All (λ e. printing.parse_event (stringify e) ≡ ok e) events
          → (w1 : W) × (serve xadd stringify construct_event secret requests w ≡ (ok tt, w1))
            × (yields : List (List Processed)) × (w2 : W) × (consume_from printing consume_event
                  redis group xreadgroup
                  (λ w. false)
                  (length events)
                  ">"
                  w1
                ≡ (ok (">", yields), w2))
            × (events_of yields ≡ map (λ e. e ∷ []) events)
            × (unread w2 ≡ [])
      serve-consumed requests events w empty a json =
          let (w1, served, held) =
            serve-Holds xadd stringify construct_event secret xreadgroup unread queue requests
              events [] w a (rw empty tt) in
          let (yields, w2, consumed, same, none_left) =
            consume_from_each (unread w1) events w1 refl held json in
          (w1, served, yields, w2, consumed, same, none_left)
