-- ===== src/StripeWebhook/Plugin.antt =====
-- apps/dashboard/src/server/graphql/plugins/stripe-webhook.plugin.ts: requests that carry a signature of
-- Stripe end here, all others go on.
use block_feed_prototype.Prelude.{ℕ, Option, none, some, String}
use block_feed_prototype.Promise.{M, Result, ok, err, pure, ◌>>=◌}
use block_feed_prototype.StripeWebhook.Events.{Event}

-- A response: its status, and the message of its body, if any.
pub record Response : Type 0 where
  pub status : ℕ
  pub msg : Option String

pub data Verification : Type 0 where
  rejected : ℕ → String → Verification
  accepted : Event → Verification

-- `construct_event` is `webhooks.constructEvent` of Stripe's client for a body, a signature and a secret.
module _ {W : Type 0} (construct_event : String → String → String → Result Event)
    (produce : Event → M W String) where
  unfoldable pub checked : Result Event → Verification
  checked (ok event) = accepted event
  checked (err e) = rejected 400 "webhook signature verification failed"

  -- The body is null if it could not be read.
  unfoldable pub get_event : String → String → Option String → Verification
  unfolding checked
  get_event signature secret none = rejected 400 "bad request body"
  get_event signature secret (some body) = checked (construct_event body signature secret)

  unfoldable pub respond : Verification → M W (Option Response)
  respond (rejected status msg) = pure (some (record { status = status; msg = some msg }))
  respond (accepted event) = do
    id ← produce event
    pure (some (record { status = 200; msg = none }))

  unfoldable pub on_request : String → Option String → Option String → M W (Option Response)
  unfolding get_event respond
  on_request secret none body = pure none
  on_request secret (some sig) body = respond (get_event sig secret body)
