-- ===== src/Webhooks/Activate.antt =====
-- apps/dashboard/src/server/schema/webhooks/handlers/activate.ts. The promises of one activation run
-- one after the other here; each is a call of the Redis script and then an update of the database.
pub mod Grouping
pub mod Outcome
pub mod Settled
pub mod Covered
pub mod Tasks
pub mod Complete
pub mod Interleaved
pub mod Sequential
use block_feed_prototype.Prelude.{
  ℕ, ◌&&◌, Option, none, some, List, [], ◌∷◌, ◌++◌, map, String, concat, ◌==◌, string_eq, nat_eq,
  in_array,
}
use block_feed_prototype.Promise.{
  M, Result, ok, err, Failure, graphql, other, pure, throw, ◌>>=◌, ◌>>◌,
}
use block_feed_prototype.Js.Map
use block_feed_prototype.Js.Map.{Map}
use block_feed_prototype.Caching.Lru.Defs.{Nullable, val}
use block_feed_prototype.Db.Schema.{Blockchain, Webhook}
use block_feed_prototype.Graphql.Errors.{gql_internal_server_error}
use block_feed_prototype.Graphql.Context.{Context}

-- Redis cluster URL -> shard ID -> webhook IDs
abbrev pub ClusterMap : Type 0
ClusterMap = Map String (Map ℕ (List String))

-- The `else` branch of the loop: the shards of a URL that the map knows.
abbrev pub add_to_shards : ℕ → String → Map ℕ (List String) → Map ℕ (List String)
add_to_shards shard_id id shards = elim (Map.get shard_id shards) [
  | none ↦ Map.set shard_id (id ∷ []) shards
  | some webhook_ids ↦ Map.set shard_id (webhook_ids ++ id ∷ []) shards
]

unfoldable pub add_result : ClusterMap → Webhook × Blockchain → ClusterMap
add_result cluster_map (r, blockchain) = elim (Map.get blockchain.redis_cluster_url cluster_map) [
  | none ↦ Map.set blockchain.redis_cluster_url ((r.shard_id, r.id ∷ []) ∷ []) cluster_map
  | some shards ↦
      Map.set blockchain.redis_cluster_url (add_to_shards r.shard_id r.id shards) cluster_map
]

-- `results.forEach(…)`
unfoldable pub add_results : ClusterMap → List (Webhook × Blockchain) → ClusterMap
add_results cluster_map [] = cluster_map
add_results cluster_map (r ∷ results) = add_results (add_result cluster_map r) results

-- What a message built from an error says.
abbrev error_text : Failure → String
error_text (graphql e) = e.msg
error_text (other msg) = concat "Error: " msg

-- `Promise.allSettled`, one promise after the other.
unfoldable pub all_settled : {W : Type 0} → List (M W (Unit {0})) → W → List (Result (Unit {0})) × W
all_settled [] w = ([], w)
all_settled (task ∷ tasks) w =
    let (r, w') = task w in let (rs, w'') = all_settled tasks w' in (r ∷ rs, w'')

-- The first rejection is thrown.
unfoldable pub throw_rejected : {W : Type 0} → List (Result (Unit {0})) → M W (Unit {0})
throw_rejected [] = pure tt
throw_rejected (ok a ∷ rs) = throw_rejected rs
throw_rejected (err e ∷ rs) = throw (gql_internal_server_error (error_text e))

-- The `count` of a success is 1, however many webhooks were activated.
unfoldable pub report : {W : Type 0} → List (Result (Unit {0})) → M W ℕ
unfolding throw_rejected
report settled = do throw_rejected settled; pure 1

unfoldable pub settle_tasks : {W : Type 0} → List (M W (Unit {0})) → M W ℕ
unfolding report all_settled
settle_tasks tasks w = let (settled, w') = all_settled tasks w in report settled w'

-- `run_script` is the `activate` command of a connection, and `decimal` prints a number.
module _ {W Cluster : Type 0} (ctx : Context W Cluster)
    (run_script : Cluster → String → String → List String → M W (Unit {0}))
    (decimal : ℕ → String) where
  abbrev call_script : Nullable Cluster → ℕ → List String → M W (Unit {0})
  call_script (val cluster) shard_id webhook_ids =
      run_script cluster (concat "block-feed:{s" (concat (decimal shard_id) "}:webhook-set"))
        (concat "block-feed:{s" (concat (decimal shard_id) "}:pending-set")) webhook_ids
  call_script _ shard_id webhook_ids =
      throw (other "Cannot read properties of undefined (reading 'client')")

  unfoldable pub activate_shard : Nullable Cluster → ℕ × List String → M W (Unit {0})
  activate_shard cluster (shard_id, webhook_ids) = do
    call_script cluster shard_id webhook_ids
    affected_rows ←
        ctx.providers.webhook.update (λ r. record r { is_active = 1 })
          (λ r. r.customer_id == ctx.user_id && in_array r.id webhook_ids)
    pure tt

  -- The connections are taken from the cache before any promise is awaited.
  unfoldable pub shard_tasks : ClusterMap → W → List (M W (Unit {0})) × W
  unfolding activate_shard
  shard_tasks [] w = ([], w)
  shard_tasks ((url, shards) ∷ cluster_map) w =
      let (cluster, w') = ctx.caches.redis_cluster_conn.get_or_set url url w in
      let (tasks, w'') = shard_tasks cluster_map w' in
      (map (activate_shard cluster) shards ++ tasks, w'')

  unfoldable pub activate_results : List (Webhook × Blockchain) → M W ℕ
  unfolding shard_tasks add_results settle_tasks
  activate_results [] w = pure 0 w
  activate_results (r ∷ results) w =
      let (tasks, w') = shard_tasks (add_results [] (r ∷ results)) w in settle_tasks tasks w'

  unfoldable pub handler : List String → M W ℕ
  unfolding activate_results
  handler [] = pure 0
  handler (id ∷ ids) = do
    results ←
        ctx.providers.webhook_with_blockchain
          (λ r. r.customer_id == ctx.user_id && r.is_active == 0 && in_array r.id (id ∷ ids))
    activate_results results
