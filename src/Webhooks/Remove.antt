-- ===== src/Webhooks/Remove.antt =====
-- apps/dashboard/src/server/schema/webhooks/handlers/remove.ts
use block_feed_prototype.Prelude.{ℕ, ◌&&◌, List, [], ◌∷◌, String, ◌==◌, string_eq, in_array}
use block_feed_prototype.Promise.{M, pure}
use block_feed_prototype.Graphql.Context.{Context}

module _ {W Cluster : Type 0} (ctx : Context W Cluster) where
  unfoldable pub handler : List String → M W ℕ
  handler [] = pure 0
  handler (id ∷ ids) =
      ctx.providers.webhook.delete (λ r. r.customer_id == ctx.user_id && in_array r.id (id ∷ ids))
