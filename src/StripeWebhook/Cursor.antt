-- ===== src/StripeWebhook/Cursor.antt =====
-- Where the consumer reads from: the backlog of the group, or new messages.
use block_feed_prototype.Prelude.{
  ℕ, zero, suc, true, false, ◌≡◌, refl, Bool, not, Option, none, some, List, [], ◌∷◌, String, ◌==◌,
  string_eq, Bool-cases, inl, inr, if◌then◌else◌,
}
use block_feed_prototype.Promise.{
  M, Result, ok, err, OnOk, OnOk-any, continue, OnOk-bind, pure, ◌>>=◌,
}
use block_feed_prototype.Js.Map.{Map, keys, values}
use block_feed_prototype.Redis.{Commands, xackdel}
use block_feed_prototype.StripeWebhook.Events.{Event}
use block_feed_prototype.StripeWebhook.Reply.{
  Replies, nil, cons, Printing, parse_stream, parse_messages,
}
use block_feed_prototype.Stripe.Provider.{webhook_event_stream_name}
use block_feed_prototype.StripeWebhook.Consumer.{
  Processed, Round, acknowledge, process, consume_parsed, consume_messages, consume_stream,
  consume_streams, consume_reply, round, consume_from, next_cursor, yielding,
}

-- Whether the reply names the stream with an empty list of messages, before any other stream that the
-- round would stop at.
abbrev pub is_empty : Replies → Bool
is_empty nil = true
is_empty (cons m ms) = false

abbrev pub stream_drained : Bool → Result (String × Replies) → Bool
stream_drained rest (err e) = false
stream_drained rest (ok (stream_name, msgs)) =
    if not (stream_name == webhook_event_stream_name) then rest else is_empty msgs

unfoldable pub is_drained : Printing → Replies → Bool
is_drained printing nil = false
is_drained printing (cons stream streams) =
    let rest = is_drained printing streams in stream_drained rest (parse_stream printing stream)

abbrev pub reply_drained : Printing → Option Replies → Bool
reply_drained printing none = false
reply_drained printing (some streams) = is_drained printing streams

module _ {W : Type 0} (printing : Printing) (consume_event : Event → M W (Unit {0}))
    (redis : Commands W) (group : String) where
  acknowledge-cursor :
      (cursor_id : String) (events : Map String Processed) (w : W)
      → OnOk
          (acknowledge printing consume_event redis group cursor_id events w).0
          (λ r. r.cursor_id ≡ cursor_id)
  unfolding acknowledge
  acknowledge-cursor cursor_id [] w = refl
  acknowledge-cursor cursor_id (e ∷ events) w =
      OnOk-bind (λ _. Unit {0}) (λ (r : Round). r.cursor_id ≡ cursor_id)
        (xackdel redis webhook_event_stream_name group (keys (e ∷ events)))
        (λ _. pure (record { cursor_id = cursor_id; yielded = some (values (e ∷ events)) })) w
        (OnOk-any (xackdel redis webhook_event_stream_name group (keys (e ∷ events)) w).0)
        (λ _ w' h. refl)

  consume_parsed-cursor :
      (cursor_id : String) (r : Result (List (String × (String × Event)))) (w : W)
      → OnOk
          (consume_parsed printing consume_event redis group cursor_id r w).0
          (λ r. r.cursor_id ≡ cursor_id)
  unfolding consume_parsed process
  consume_parsed-cursor cursor_id (err e) w = tt
  consume_parsed-cursor cursor_id (ok msgs) w = acknowledge-cursor cursor_id _ _

  abbrev Moved : String → Bool → Round → Type 0
  Moved cursor_id drained r = r.cursor_id ≡ (if drained then next_cursor cursor_id else cursor_id)

  consume_messages-cursor :
      (cursor_id : String) (msgs : Replies) (w : W)
      → OnOk
          (consume_messages printing consume_event redis group cursor_id msgs w).0
          (Moved cursor_id (is_empty msgs))
  unfolding consume_messages
  consume_messages-cursor cursor_id nil w = refl
  consume_messages-cursor cursor_id (cons m ms) w =
      consume_parsed-cursor cursor_id (parse_messages printing (cons m ms)) w

  consume_stream-cursor :
      (cursor_id : String) (rest : M W Round) (drained : Bool) (parsed : Result (String × Replies))
      (w : W)
      → OnOk (rest w).0 (Moved cursor_id drained)
      → OnOk
          (consume_stream printing consume_event redis group cursor_id rest parsed w).0
          (Moved cursor_id (stream_drained drained parsed))
  unfolding consume_stream
  consume_stream-cursor cursor_id rest drained (err e) w h = tt
  consume_stream-cursor cursor_id rest drained (ok (stream_name, msgs)) w h =
      elim (Bool-cases (stream_name == webhook_event_stream_name)) [
        | inr differ ↦ rw differ h
        | inl same ↦ rw same (consume_messages-cursor cursor_id msgs w)
      ]

  consume_streams-cursor :
      (cursor_id : String) (streams : Replies) (w : W)
      → OnOk
          (consume_streams printing consume_event redis group cursor_id streams w).0
          (Moved cursor_id (is_drained printing streams))
  unfolding consume_streams is_drained
  consume_streams-cursor cursor_id nil w = refl
  consume_streams-cursor cursor_id (cons stream streams) w =
      consume_stream-cursor cursor_id
        (consume_streams printing consume_event redis group cursor_id streams)
        (is_drained printing streams) (parse_stream printing stream) w
        (consume_streams-cursor cursor_id streams w)

  consume_reply-cursor :
      (cursor_id : String) (reply : Option Replies) (w : W)
      → OnOk
          (consume_reply printing consume_event redis group cursor_id reply w).0
          (Moved cursor_id (reply_drained printing reply))
  unfolding consume_reply
  consume_reply-cursor cursor_id none w = refl
  consume_reply-cursor cursor_id (some streams) w = consume_streams-cursor cursor_id streams w

  module _ (xreadgroup : String → M W (Option Replies)) where
    -- A round that returns keeps its cursor, also when handlers fail or the read times out, unless the
    -- reply names the stream without any message: only then the backlog and new messages change places.
    pub round-cursor :
        (cursor_id : String) (w : W)
        → OnOk (xreadgroup cursor_id w).0 (λ reply.
          OnOk (round printing consume_event redis group xreadgroup cursor_id w).0 (λ r.
            r.cursor_id
            ≡ (if reply_drained printing reply then next_cursor cursor_id else cursor_id)))
    unfolding round
    round-cursor cursor_id w = go (xreadgroup cursor_id w)
      where
        go :
            (r : Result (Option Replies) × W)
            → OnOk r.0 (λ reply.
              OnOk (continue r (consume_reply printing consume_event redis group cursor_id)).0 (λ r.
                r.cursor_id
                ≡ (if reply_drained printing reply then next_cursor cursor_id else cursor_id)))
        go (err e, w') = tt
        go (ok reply, w') = consume_reply-cursor cursor_id reply w'

    -- If a read of new messages never answers with an empty list, then a consumer that has once moved
    -- on to new messages never goes back to the backlog, however long it runs.
    pub consume_from-forward :
        ((w : W) → OnOk (xreadgroup ">" w).0 (λ reply. reply_drained printing reply ≡ false))
        → (aborted : W → Bool) (rounds : ℕ) (w : W)
        → OnOk
            (consume_from printing consume_event redis group xreadgroup aborted rounds ">" w).0
            (λ r. r.0 ≡ ">")
    unfolding consume_from round
    consume_from-forward news aborted zero w = refl
    consume_from-forward news aborted (suc rounds) w = elim (Bool-cases (aborted w)) [
      | inl e ↦ rw e refl
      | inr e ↦ rw e (
          OnOk-bind (λ r. r.cursor_id ≡ ">") (λ r. r.0 ≡ ">")
            (round printing consume_event redis group xreadgroup ">")
            (λ r.
              consume_from printing consume_event redis group xreadgroup aborted rounds r.cursor_id
              >>= yielding r.yielded)
            w (forward w)
            (λ r w' c. rw c (
              OnOk-bind (λ l. l.0 ≡ ">") (λ r. r.0 ≡ ">")
                (consume_from printing consume_event redis group xreadgroup aborted rounds ">")
                (yielding r.yielded) w' (consume_from-forward news aborted rounds w')
                (yields r.yielded))))
    ]
      where
        forward :
            (w : W)
            → OnOk
                (round printing consume_event redis group xreadgroup ">" w).0
                (λ r. r.cursor_id ≡ ">")
        forward w =
            OnOk-bind (λ reply. reply_drained printing reply ≡ false) (λ r. r.cursor_id ≡ ">")
              (xreadgroup ">") (consume_reply printing consume_event redis group ">") w (news w)
              (λ reply w' h. rw h at (consume_reply-cursor ">" reply w'))

        yields :
            (o : Option (List Processed)) (l : String × List (List Processed)) (w' : W)
            → l.0 ≡ ">"
            → OnOk (yielding o l w').0 (λ r. r.0 ≡ ">")
        yields none l w' h = h
        yields (some e) (c, l) w' h = h
