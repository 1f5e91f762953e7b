-- ===== src/StripeWebhook/Reply.antt =====
-- How consumer/src/index.ts reads the reply of `XREADGROUP`, whose shape the client does not promise.
use block_feed_prototype.Prelude.{Option, none, some, List, [], ◌∷◌, String, concat, string_eq}
use block_feed_prototype.Promise.{Result, ok, err, other, Failure}
use block_feed_prototype.Js.Map
use block_feed_prototype.Js.Map.{Map}
use block_feed_prototype.StripeWebhook.Events.{Event}

-- A value in a reply: a text, an array, or anything else.
mutual
  pub data Reply : Type 0 where
    text : String → Reply
    items : Replies → Reply
    something : Reply

  pub data Replies : Type 0 where
    nil : Replies
    cons : Reply → Replies → Replies

-- `xs.at(0)` and `xs.at(1)`
abbrev pub at_0 : Replies → Option Reply
at_0 nil = none
at_0 (cons r rs) = some r

abbrev pub at_1 : Replies → Option Reply
at_1 nil = none
at_1 (cons r rs) = at_0 rs

-- How JavaScript prints a reply in a message, `JSON.parse`, and the message of an error.
pub record Printing : Type 0 where
  pub show : Reply → String
  pub parse_event : String → Result Event
  pub error_message : Failure → String

-- `if (typeof v !== "string") throw …`
unfoldable pub need_text : String → Option Reply → Result String
need_text msg (some (text s)) = ok s
need_text msg _ = err (other msg)

-- `if (!Array.isArray(v)) throw …`
unfoldable pub need_array : String → Option Reply → Result Replies
need_array msg (some (items rs)) = ok rs
need_array msg _ = err (other msg)

abbrev pub then {ℓ} : {A : Type ℓ} {B : Type 0} → Result A → (A → Result B) → Result B
then (ok a) f = f a
then (err e) f = err e

module _ (printing : Printing) where
  -- The name of a stream and its messages.
  unfoldable pub parse_stream : Reply → Result (String × Replies)
  unfolding need_text need_array
  parse_stream stream =
      let shown = printing.show stream in
      then (need_array (concat "could not parse xreadgroup result: " shown) (some stream)) λ parts.
        then (need_text (concat "could not parse stream name: " shown) (at_0 parts)) λ stream_name.
          then (need_array (concat "could not parse messages: " shown) (at_1 parts))
            λ msgs. ok (stream_name, msgs)

  -- The identifier of a message, its key and its event.
  unfoldable pub parse_message : Reply → Result (String × (String × Event))
  unfolding need_text need_array
  parse_message msg =
      let shown = printing.show msg in
      then (need_array (concat "invalid message: " shown) (some msg)) λ parts.
        then (need_text (concat "invalid message ID: " shown) (at_0 parts)) λ id.
          then (need_array (concat "invalid message data: " shown) (at_1 parts)) λ data_parts.
            then (need_text (concat "invalid key: " shown) (at_0 data_parts)) λ key.
              then (need_text (concat "invalid value: " shown) (at_1 data_parts))
                λ raw_val. then (printing.parse_event raw_val) λ val. ok (id, (key, val))

  unfoldable pub parse_messages : Replies → Result (List (String × (String × Event)))
  unfolding parse_message
  parse_messages nil = ok []
  parse_messages (cons msg msgs) =
      then (parse_message msg) λ m. then (parse_messages msgs) λ ms. ok (m ∷ ms)

-- `Object.fromEntries`: a later entry replaces the value of an earlier one with its key.
unfoldable pub from_entries : {V : Type 0} → Map String V → Map String V → Map String V
from_entries m [] = m
from_entries m ((k, v) ∷ entries) = from_entries (Map.set k v m) entries
