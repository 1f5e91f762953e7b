-- ===== src/Webhooks/Create.antt =====
-- apps/dashboard/src/server/schema/webhooks/handlers/create.ts
use block_feed_prototype.Prelude.{
  ℕ, Option, none, some, String, concat, ◌==◌, nat_eq, string_eq, if◌then◌else◌,
}
use block_feed_prototype.Promise.{M, pure, throw, ◌>>=◌}
use block_feed_prototype.Db.Schema.{Blockchain, Webhook}
use block_feed_prototype.Graphql.Errors.{gql_bad_request_error, gql_internal_server_error}
use block_feed_prototype.Graphql.Context.{Context}
use block_feed_prototype.Webhooks.Inputs.{CreateData}

-- The row that is inserted. `created_at` is the database's default, which `now` stands for.
abbrev pub new_webhook : String → String → CreateData → String → ℕ → Webhook
new_webhook user_id now d uuid shard_id = record {
  id = uuid;
  created_at = now;
  is_active = 0;
  url = d.url;
  max_blocks = d.max_blocks;
  max_retries = d.max_retries;
  timeout_ms = d.timeout_ms;
  customer_id = user_id;
  blockchain_id = d.blockchain_id;
  shard_id = shard_id;
}

abbrev pub created : {W : Type 0} → String → ℕ → M W String
created uuid affected_rows =
    if affected_rows == 0
    then throw (gql_internal_server_error "failed to create webhook")
    else pure uuid

module _ {W Cluster : Type 0} (ctx : Context W Cluster) (now : String) (d : CreateData) where
  unfoldable pub insert_webhook : Option Blockchain → M W String
  insert_webhook none =
      throw
        (gql_bad_request_error (concat "invalid blockchain ID \"" (concat d.blockchain_id "\"")))
  insert_webhook (some blockchain) = do
    uuid ← ctx.crypto.random_uuid
    shard_id ← ctx.crypto.random_int 0 blockchain.shard_count
    affected_rows ← ctx.providers.webhook.insert (new_webhook ctx.user_id now d uuid shard_id)
    created uuid affected_rows

  unfoldable pub handler : M W String
  unfolding insert_webhook
  handler = do
    blockchain ← ctx.providers.blockchain.find_first (λ b. b.id == d.blockchain_id)
    insert_webhook blockchain
