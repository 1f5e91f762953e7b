-- ===== src/StripeWebhook/Consumer.antt =====
-- `consume` of consumer/src/index.ts: one round of its loop reads, processes, acknowledges and yields.
use block_feed_prototype.Prelude.{
  ℕ, zero, suc, Bool, not, Option, none, some, List, [], ◌∷◌, String, concat, ◌==◌, string_eq,
  if◌then◌else◌,
}
use block_feed_prototype.Promise.{M, Result, ok, err, Failure, other, pure, throw, ◌>>=◌, ◌>>◌}
use block_feed_prototype.Js.Map
use block_feed_prototype.Js.Map.{Map, keys, values}
use block_feed_prototype.Redis.{Commands, xackdel}
use block_feed_prototype.StripeWebhook.Events.{Event, event_type}
use block_feed_prototype.StripeWebhook.Reply.{
  Replies, nil, cons, Printing, parse_stream, parse_messages, from_entries,
}
use block_feed_prototype.Stripe.Provider.{webhook_event_stream_name}

-- `{ id, data, err }`
pub record Processed : Type 0 where
  pub id : String
  pub event : Event
  pub error : Option Failure

-- What a round yields, if anything, and the cursor for the next one.
pub record Round : Type 0 where
  pub cursor_id : String
  pub yielded : Option (List Processed)

abbrev pub yielding :
    {W : Type 0}
    → Option (List Processed)
    → String × List (List Processed)
    → M W (String × List (List Processed))
yielding none later = pure later
yielding (some events) (cursor_id, yields) = pure (cursor_id, events ∷ yields)

abbrev pub next_cursor : String → String
next_cursor cursor_id = if cursor_id == "0-0" then ">" else "0-0"

module _ {W : Type 0} (printing : Printing) (consume_event : Event → M W (Unit {0})) where
  abbrev pub error_of : String → Event → Result (Unit {0}) → Option Failure
  error_of id event (ok a) = none
  error_of id event (err e) = some (
      other (
        concat "an error occurred while processing event \"" (
          concat (event_type event) (
            concat "\" with message ID \""
              (concat id (concat "\":\n" (printing.error_message e)))))))

  -- The loop over the messages, which catches what a handler throws.
  unfoldable pub process_messages :
      Map String (String × Event) → Map String Processed → W → Map String Processed × W
  process_messages [] stripe_events w = (stripe_events, w)
  process_messages ((id, (key, event)) ∷ msgs) stripe_events w =
      let (r, w') = consume_event event w in
      process_messages msgs
        (Map.set id (record { id = id; event = event; error = error_of id event r }) stripe_events)
        w'

  module _ (redis : Commands W) (consumer_group_name : String) where
    -- Nothing to acknowledge: the round yields nothing.
    unfoldable pub acknowledge : String → Map String Processed → M W Round
    unfolding xackdel
    acknowledge cursor_id [] = pure (record { cursor_id = cursor_id; yielded = none })
    acknowledge cursor_id (e ∷ stripe_events) = do
      xackdel redis webhook_event_stream_name consumer_group_name (keys (e ∷ stripe_events))
      pure (record { cursor_id = cursor_id; yielded = some (values (e ∷ stripe_events)) })

    unfoldable pub process : String → Map String (String × Event) → M W Round
    unfolding process_messages acknowledge
    process cursor_id parsed_msgs w =
        let (stripe_events, w') = process_messages parsed_msgs [] w in
        acknowledge cursor_id stripe_events w'

    -- The messages of the stream that the round is interested in.
    unfoldable pub consume_parsed : String → Result (List (String × (String × Event))) → M W Round
    unfolding process from_entries
    consume_parsed cursor_id (err e) = throw e
    consume_parsed cursor_id (ok msgs) = process cursor_id (from_entries [] msgs)

    unfoldable pub consume_messages : String → Replies → M W Round
    unfolding consume_parsed parse_messages
    consume_messages cursor_id nil =
        pure (record { cursor_id = next_cursor cursor_id; yielded = none })
    consume_messages cursor_id (cons msg msgs) =
        consume_parsed cursor_id (parse_messages printing (cons msg msgs))

    -- One stream; `rest` goes on with the others.
    unfoldable pub consume_stream : String → M W Round → Result (String × Replies) → M W Round
    unfolding consume_messages
    consume_stream cursor_id rest (err e) = throw e
    consume_stream cursor_id rest (ok (stream_name, msgs)) =
        if not (stream_name == webhook_event_stream_name)
        then rest
        else consume_messages cursor_id msgs

    -- The loop over the streams of a reply, which ends at the first one with the name.
    unfoldable pub consume_streams : String → Replies → M W Round
    unfolding parse_stream consume_stream
    consume_streams cursor_id nil = pure (record { cursor_id = cursor_id; yielded = none })
    consume_streams cursor_id (cons stream streams) =
        let rest = consume_streams cursor_id streams in
        consume_stream cursor_id rest (parse_stream printing stream)

    -- `null` is the reply of a read that has waited long enough.
    unfoldable pub consume_reply : String → Option Replies → M W Round
    unfolding consume_streams
    consume_reply cursor_id none = pure (record { cursor_id = cursor_id; yielded = some [] })
    consume_reply cursor_id (some streams) = consume_streams cursor_id streams

    -- `xreadgroup` is the read of one message of the stream by this consumer, from a cursor on.
    module _ (xreadgroup : String → M W (Option Replies)) where
      unfoldable pub round : String → M W Round
      unfolding consume_reply
      round cursor_id = do streams ← xreadgroup cursor_id; consume_reply cursor_id streams

      -- A number of rounds of the loop: the cursor after them, and all that they have yielded.
      unfoldable pub consume_from : (W → Bool) → ℕ → String → M W (String × List (List Processed))
      unfolding round
      consume_from aborted zero cursor_id w = pure (cursor_id, []) w
      consume_from aborted (suc rounds) cursor_id w =
          let rest = λ (r : Round). consume_from aborted rounds r.cursor_id in
          if aborted w
          then pure (cursor_id, []) w
          else (round cursor_id >>= λ r. rest r >>= yielding r.yielded) w

      unfoldable pub consume : (W → Bool) → ℕ → M W (String × List (List Processed))
      unfolding consume_from
      consume aborted rounds = consume_from aborted rounds "0-0"

-- `build`: a consumer group that exists already is no error.
module _ {W : Type 0} (xgroup_create : String → String → String → M W (Unit {0}))
    (is_busy_group : Failure → Bool) where
  unfoldable pub built : Result (Unit {0}) → M W (Unit {0})
  built (ok a) = pure tt
  built (err e) = if is_busy_group e then pure tt else throw e

  unfoldable pub build : String → M W (Unit {0})
  unfolding built
  build consumer_group_name w =
      let (r, w') = xgroup_create webhook_event_stream_name consumer_group_name "$" w in built r w'
