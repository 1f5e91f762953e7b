-- ===== src/StripeWebhook/Yields.antt =====
-- What a round of the consumer yields: one entry for each message that it has processed.
use mathlib.Core.List.{append_assoc, append-nil}
use block_feed_prototype.Prelude.{
  ◌≡◌, refl, sym, ap, ◌∙◌, Option, none, some, List, [], ◌∷◌, ◌++◌, map, String, string_eq,
}
use block_feed_prototype.Promise.{M, Result, ok}
use block_feed_prototype.Js.Map
use block_feed_prototype.Js.Map.{Map, NodupKeys, keys, values}
use block_feed_prototype.Redis.{Commands, xackdel}
use block_feed_prototype.Stripe.Provider.{webhook_event_stream_name}
use block_feed_prototype.StripeWebhook.Events.{Event}
use block_feed_prototype.StripeWebhook.Reply.{
  Reply, Replies, cons, Printing, parse_messages, from_entries,
}
use block_feed_prototype.StripeWebhook.Consumer.{
  Processed, Round, error_of, process_messages, acknowledge, process, consume_parsed,
  consume_messages,
}
use block_feed_prototype.StripeWebhook.Acknowledged.{
  Apart, Apart-nil, Apart-append, from_entries-NodupKeys,
}

abbrev pub ids_of : List Processed → List String
ids_of = map (λ p. p.id)

abbrev pub yielded_ids : Option (List Processed) → List String
yielded_ids none = []
yielded_ids (some events) = ids_of events

ids_of-append :
    (m : Map String Processed) (k : String) (p : Processed)
    → ids_of (values (m ++ (k, p) ∷ [])) ≡ ids_of (values m) ++ p.id ∷ []
ids_of-append [] k p = refl
ids_of-append ((j, q) ∷ m) k p = ap (◌∷◌ q.id) (ids_of-append m k p)

-- A call that succeeds, whatever its state.
abbrev pub Succeeds : {W A : Type 0} → M W A → Type 0
Succeeds {W} {A} m = (w : W) → (a : A) × (w' : W) × (m w ≡ (ok a, w'))

module _ {W : Type 0} (printing : Printing) (consume_event : Event → M W (Unit {0})) where
  process_messages-ids :
      (msgs : Map String (String × Event)) (events : Map String Processed) (w : W)
      → NodupKeys msgs
      → Apart printing consume_event msgs events
      → ids_of (values (process_messages printing consume_event msgs events w).0)
        ≡ ids_of (values events) ++ keys msgs
  unfolding process_messages Apart
  process_messages-ids [] events w d a = sym (append-nil (ids_of (values events)))
  process_messages-ids ((id, (key, event)) ∷ msgs) events w d a =
      let r = consume_event event w in
      let p : Processed = record {
        id = id;
        event = event;
        error = error_of printing consume_event id event r.0;
      } in
      ap (λ e. ids_of (values (process_messages printing consume_event msgs e r.1).0))
        (Map.set_of_has id p events a.0)
      ∙ process_messages-ids msgs (events ++ (id, p) ∷ []) r.1 d.1
          (Apart-append printing consume_event id p msgs events d.0 a.1)
      ∙ ap (λ ks. ks ++ keys msgs) (ids_of-append events id p)
      ∙ append_assoc (ids_of (values events)) (id ∷ []) (keys msgs)

  module _ (redis : Commands W) (group : String)
      (acks : (ids : List String) → Succeeds (redis.xack webhook_event_stream_name group ids))
      (deletes : (ids : List String) → Succeeds (redis.xdel webhook_event_stream_name ids)) where
    -- A round that returns what it has yielded these identifiers.
    Yields : String → List String → Result Round × W → Type 0
    Yields cursor_id ids r =
        (y : Option (List Processed)) × (w' : W) × (r
          ≡ (ok (record { cursor_id = cursor_id; yielded = y }), w'))
        × (yielded_ids y ≡ ids)

    acknowledge-Yields :
        (cursor_id : String) (events : Map String Processed) (w : W)
        → Yields cursor_id
            (ids_of (values events))
            (acknowledge printing consume_event redis group cursor_id events w)
    unfolding acknowledge Yields xackdel
    acknowledge-Yields cursor_id [] w = (none, w, refl, refl)
    acknowledge-Yields cursor_id (e ∷ events) w =
        let (n, w1, acked) = acks (keys (e ∷ events)) w in
        let (m, w2, deleted) = deletes (keys (e ∷ events)) w1 in
        (some (values (e ∷ events)), w2, rw (acked, deleted) refl, refl)

    -- If the stream can be acknowledged and deleted from, a round whose messages all parse never
    -- fails, whatever their handlers do: it yields one entry for each identifier that it has read, in
    -- order, and keeps its cursor.
    pub consume_messages_total :
        (cursor_id : String) (msg : Reply) (msgs : Replies)
        (parsed : List (String × (String × Event))) (w : W)
        → parse_messages printing (cons msg msgs) ≡ ok parsed
        → (y : Option (List Processed)) × (w' : W) × (consume_messages printing consume_event redis
              group cursor_id
              (cons msg msgs)
              w
            ≡ (ok (record { cursor_id = cursor_id; yielded = y }), w'))
          × (yielded_ids y ≡ keys (from_entries [] parsed))
    unfolding consume_messages consume_parsed process Yields
    consume_messages_total cursor_id msg msgs parsed w e =
        let entries = from_entries [] parsed in
        let r = process_messages printing consume_event entries [] w in
        let same =
          process_messages-ids entries [] w (from_entries-NodupKeys [] parsed tt)
            (Apart-nil printing consume_event entries) in
        let (y, w', done, ids) = acknowledge-Yields cursor_id r.0 r.1 in
        (y, w', rw e done, ids ∙ same)
