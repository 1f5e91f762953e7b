-- ===== src/StripeWebhook/Acknowledged.antt =====
-- Messages that a round has processed are acknowledged and deleted, whatever their handlers did.
use mathlib.Core.List.{append_assoc, append-nil}
use block_feed_prototype.Prelude.{
  ◌≡◌, refl, sym, ap, ◌∙◌, Bool, false, not, ◌||◌, ◌&&◌, List, [], ◌∷◌, ◌++◌, map, String,
  string_eq, in_array, All, All-of, arith,
}
use block_feed_prototype.Promise.{M, ok, Post, Post-bind, Post-map, Keeps, pure}
use block_feed_prototype.Js.Map
use block_feed_prototype.Js.Map.{Map, NodupKeys, keys, values}
use block_feed_prototype.Redis.{Commands, xackdel}
use block_feed_prototype.StripeWebhook.Events.{Event}
use block_feed_prototype.StripeWebhook.Reply.{
  Reply, Replies, cons, Printing, parse_messages, from_entries,
}
use block_feed_prototype.Stripe.Provider.{webhook_event_stream_name}
use block_feed_prototype.StripeWebhook.Consumer.{
  Processed, error_of, process_messages, acknowledge, process, consume_parsed, consume_messages,
}

abbrev without : (String → Bool) → List String → String → Bool
without holds ids id = holds id && not (in_array id ids)

-- `pending` are the identifiers that the consumer group has read and not acknowledged, `stored` those in the stream.
pub record IsStream {W : Type 0} (redis : Commands W) (group : String)
    (pending stored : W → String → Bool) : Type 0 where
  pub xack_value :
      (ids : List String) (w : W)
      → Post (redis.xack webhook_event_stream_name group ids w) (λ n w'.
        ((id : String) → pending w' id ≡ without (pending w) ids id) × (stored w' ≡ stored w))
  pub xdel_value :
      (ids : List String) (w : W)
      → Post (redis.xdel webhook_event_stream_name ids w) (λ n w'.
        ((id : String) → stored w' id ≡ without (stored w) ids id) × (pending w' ≡ pending w))

in_array-append :
    (x : String) (xs ys : List String) → in_array x (xs ++ ys) ≡ (in_array x xs || in_array x ys)
unfolding in_array
in_array-append x [] ys = refl
in_array-append x (y ∷ xs) ys = ground (arith, in_array-append x xs ys)

module _ {V : Type 0} where
  keys-append : (m n : Map String V) → keys (m ++ n) ≡ keys m ++ keys n
  keys-append [] n = refl
  keys-append ((k, v) ∷ m) n = ap (◌∷◌ k) (keys-append m n)

  has-keys : (k : String) (m : Map String V) → in_array k (keys m) ≡ Map.has k m
  unfolding in_array Map.has
  has-keys k [] = refl
  has-keys k ((j, v) ∷ m) = ground (arith, has-keys k m)

  from_entries-has :
      (k : String) (m es : Map String V)
      → Map.has k (from_entries m es) ≡ (Map.has k m || in_array k (map (λ e. e.0) es))
  unfolding from_entries in_array
  from_entries-has k m [] = ground arith
  from_entries-has k m ((j, v) ∷ es) =
      from_entries-has k (Map.set j v m) es ∙ ground (arith, Map.has-set k j v m)

  pub from_entries-NodupKeys : (m es : Map String V) → NodupKeys m → NodupKeys (from_entries m es)
  unfolding from_entries
  from_entries-NodupKeys m [] d = d
  from_entries-NodupKeys m ((j, v) ∷ es) d =
      from_entries-NodupKeys (Map.set j v m) es (Map.set-NodupKeys j v m d)

module _ {W : Type 0} (printing : Printing) (consume_event : Event → M W (Unit {0})) where
  unfoldable pub Apart : Map String (String × Event) → Map String Processed → Type 0
  Apart msgs events = All (λ m. Map.has m.0 events ≡ false) msgs

  pub Apart-nil : (msgs : Map String (String × Event)) → Apart msgs []
  unfolding Apart Map.has
  Apart-nil msgs = All-of (λ m. false ≡ false) (λ m. refl) msgs

  pub Apart-append :
      (k : String) (p : Processed) (msgs : Map String (String × Event))
      (events : Map String Processed)
      → Map.has k msgs ≡ false
      → Apart msgs events
      → Apart msgs (events ++ (k, p) ∷ [])
  unfolding Apart Map.has
  Apart-append k p [] events h a = tt
  Apart-append k p ((j, m) ∷ msgs) events h a = (
    ground (arith, Map.has-append j events ((k, p) ∷ [])),
    Apart-append k p msgs events (ground arith) a.1,
  )

  -- The loop has an entry for every message, in order.
  process_messages-keys :
      (msgs : Map String (String × Event)) (events : Map String Processed) (w : W)
      → NodupKeys msgs
      → Apart msgs events
      → keys (process_messages printing consume_event msgs events w).0 ≡ keys events ++ keys msgs
  unfolding process_messages Apart
  process_messages-keys [] events w d a = sym (append-nil (keys events))
  process_messages-keys ((id, (key, event)) ∷ msgs) events w d a =
      let r = consume_event event w in
      let p : Processed = record {
        id = id;
        event = event;
        error = error_of printing consume_event id event r.0;
      } in
      ap (λ e. keys (process_messages printing consume_event msgs e r.1).0)
        (Map.set_of_has id p events a.0)
      ∙ process_messages-keys msgs (events ++ (id, p) ∷ []) r.1 d.1
          (Apart-append id p msgs events d.0 a.1)
      ∙ ap (λ ks. ks ++ keys msgs) (keys-append events ((id, p) ∷ []))
      ∙ append_assoc (keys events) (id ∷ []) (keys msgs)

  process_messages-Keeps :
      {X : Type 0} (view : W → X)
      → ((event : Event) → Keeps view (consume_event event))
      → (msgs : Map String (String × Event)) (events : Map String Processed) (w : W)
      → view (process_messages printing consume_event msgs events w).1 ≡ view w
  unfolding process_messages
  process_messages-Keeps view h [] events w = refl
  process_messages-Keeps view h ((id, (key, event)) ∷ msgs) events w =
      process_messages-Keeps view h msgs _ (consume_event event w).1 ∙ h event w

  module _ (redis : Commands W) (group : String) (pending stored : W → String → Bool)
      (stream : IsStream redis group pending stored)
      (pending_kept : (event : Event) → Keeps pending (consume_event event))
      (stored_kept : (event : Event) → Keeps stored (consume_event event)) where
    -- What is left of the pending and of the stored messages.
    Left : List String → W → W → Type 0
    Left ids w w' =
        ((id : String) → pending w' id ≡ without (pending w) ids id)
        × ((id : String) → stored w' id ≡ without (stored w) ids id)

    xackdel-Left :
        (ids : List String) (w : W)
        → Post (xackdel redis webhook_event_stream_name group ids w) (λ _ w'. Left ids w w')
    unfolding xackdel Left
    xackdel-Left ids w =
        Post-bind
          (λ n w1.
            ((id : String) → pending w1 id ≡ without (pending w) ids id) × (stored w1 ≡ stored w))
          (λ _ w'. Left ids w w') (redis.xack webhook_event_stream_name group ids) _ w
          (stream.xack_value ids w)
          λ n w1 h1.
            Post-bind
              (λ n w2.
                ((id : String) → stored w2 id ≡ without (stored w1) ids id)
                × (pending w2 ≡ pending w1))
              (λ _ w'. Left ids w w') (redis.xdel webhook_event_stream_name ids) (λ n. pure tt) w1
              (stream.xdel_value ids w1)
              λ n w2 h2. (
                λ id. ap (λ f. f id) h2.1 ∙ h1.0 id,
                λ id. h2.0 id ∙ ap (λ f. without f ids id) h1.1,
              )

    acknowledge-Left :
        (cursor_id : String) (events : Map String Processed) (w : W)
        → Post
            (acknowledge printing consume_event redis group cursor_id events w)
            (λ r w'. (r.cursor_id ≡ cursor_id) × Left (keys events) w w')
    unfolding acknowledge Left in_array
    acknowledge-Left cursor_id [] w = (refl, ((λ id. ground arith), (λ id. ground arith)))
    acknowledge-Left cursor_id (e ∷ events) w =
        Post-bind (λ _ w'. Left (keys (e ∷ events)) w w') _
          (xackdel redis webhook_event_stream_name group (keys (e ∷ events))) _ w
          (xackdel-Left (keys (e ∷ events)) w) (λ _ w' h. (refl, h))

    process-Left :
        (cursor_id : String) (msgs : Map String (String × Event)) (w : W)
        → NodupKeys msgs
        → Post
            (process printing consume_event redis group cursor_id msgs w)
            (λ r w'. (r.cursor_id ≡ cursor_id) × Left (keys msgs) w w')
    unfolding process Left Apart
    process-Left cursor_id msgs w d =
        let r = process_messages printing consume_event msgs [] w in
        let same : keys r.0 ≡ keys msgs = process_messages-keys msgs [] w d (Apart-nil msgs) in
        Post-map (λ r' w'. (r'.cursor_id ≡ cursor_id) × Left (keys r.0) r.1 w') _
          (acknowledge printing consume_event redis group cursor_id r.0 r.1)
          (λ r' w' h. (
            h.0,
            (
              (λ id.
                  h.1.0 id
                  ∙ ap (λ f. without f (keys r.0) id)
                      (process_messages-Keeps pending pending_kept msgs [] w)
                  ∙ ap (λ ks. without (pending w) ks id) same),
              (λ id.
                  h.1.1 id
                  ∙ ap (λ f. without f (keys r.0) id)
                      (process_messages-Keeps stored stored_kept msgs [] w)
                  ∙ ap (λ ks. without (stored w) ks id) same),
            ),
          ))
          (acknowledge-Left cursor_id r.0 r.1)

    -- A round that has read messages and parsed them all, and returns, has acknowledged and deleted
    -- exactly those messages, also the ones whose handlers have failed: if the handlers leave the
    -- stream alone, then of the identifiers that were pending or stored before, just theirs are
    -- gone. The cursor stays.
    pub consume_messages-acknowledged :
        (cursor_id : String) (msg : Reply) (msgs : Replies)
        (parsed : List (String × (String × Event))) (w : W)
        → parse_messages printing (cons msg msgs) ≡ ok parsed
        → Post
            (consume_messages printing consume_event redis group cursor_id (cons msg msgs) w)
            (λ r w'.
              (r.cursor_id ≡ cursor_id)
              × ((id : String)
                  → pending w' id ≡ (pending w id && not (in_array id (map (λ m. m.0) parsed))))
              × ((id : String)
                  → stored w' id ≡ (stored w id && not (in_array id (map (λ m. m.0) parsed)))))
    unfolding consume_messages consume_parsed Left Map.has
    consume_messages-acknowledged cursor_id msg msgs parsed w e =
        let entries = from_entries [] parsed in
        let same : (id : String)
            → in_array id (keys entries) ≡ in_array id (map (λ m. m.0) parsed) =
          λ id. has-keys id entries ∙ from_entries-has id [] parsed in
        rw e (
          Post-map (λ r w'. (r.cursor_id ≡ cursor_id) × Left (keys entries) w w') _
            (process printing consume_event redis group cursor_id entries w)
            (λ r w' h. (
              h.0,
              (λ id. h.1.0 id ∙ ap (λ b. pending w id && not b) (same id)),
              (λ id. h.1.1 id ∙ ap (λ b. stored w id && not b) (same id)),
            ))
            (process-Left cursor_id entries w (from_entries-NodupKeys [] parsed tt)))
