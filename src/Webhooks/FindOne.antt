-- ===== src/Webhooks/FindOne.antt =====
-- apps/dashboard/src/server/schema/webhooks/handlers/find-one.ts
use block_feed_prototype.Prelude.{◌&&◌, Option, none, some, String, concat, ◌==◌, string_eq}
use block_feed_prototype.Promise.{M, pure, throw, ◌>>=◌}
use block_feed_prototype.Db.Schema.{Webhook}
use block_feed_prototype.Graphql.Errors.{gql_bad_request_error}
use block_feed_prototype.Graphql.Context.{Context}

abbrev pub or_missing : {W : Type 0} → String → Option Webhook → M W Webhook
or_missing id none =
    throw (gql_bad_request_error (concat "record with id \"" (concat id "\" does not exist")))
or_missing id (some result) = pure result

module _ {W Cluster : Type 0} (ctx : Context W Cluster) where
  unfoldable pub handler : String → M W Webhook
  handler id = do
    result ← ctx.providers.webhook.find_first (λ r. r.customer_id == ctx.user_id && r.id == id)
    or_missing id result
