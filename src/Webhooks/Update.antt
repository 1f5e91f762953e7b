-- ===== src/Webhooks/Update.antt =====
-- apps/dashboard/src/server/schema/webhooks/handlers/update.ts
use block_feed_prototype.Prelude.{
  ℕ, Bool, true, false, not, ◌&&◌, ◌||◌, Option, none, some, String, ◌==◌, string_eq, if◌then◌else◌,
}
use block_feed_prototype.Promise.{M, pure}
use block_feed_prototype.Db.Schema.{Webhook}
use block_feed_prototype.Graphql.Context.{Context}
use block_feed_prototype.Webhooks.Inputs.{UpdateData}

abbrev pub is_given {ℓ} : {A : Type ℓ} → Option A → Bool
is_given none = false
is_given (some a) = true

-- Whether `Object.values(args.data)` holds anything that is not null.
abbrev pub has_changes : UpdateData → Bool
has_changes d =
    is_given d.url || is_given d.max_blocks || is_given d.max_retries || is_given d.timeout_ms

-- A column set to `undefined` keeps its value.
abbrev pub or_kept {ℓ} : {A : Type ℓ} → Option A → A → A
or_kept none a = a
or_kept (some b) a = b

unfoldable pub patch : UpdateData → Webhook → Webhook
patch d r = record r {
  max_retries = or_kept d.max_retries r.max_retries;
  max_blocks = or_kept d.max_blocks r.max_blocks;
  timeout_ms = or_kept d.timeout_ms r.timeout_ms;
  url = or_kept d.url r.url;
}

module _ {W Cluster : Type 0} (ctx : Context W Cluster) where
  unfoldable pub handler : String → UpdateData → M W ℕ
  unfolding patch
  handler id d =
      if not (has_changes d)
      then pure 0
      else ctx.providers.webhook.update (patch d) (λ r. r.customer_id == ctx.user_id && r.id == id)
