-- ===== src/Webhooks/Activate/Tasks.antt =====
-- What each promise of an activation keeps and achieves, fulfilled or not.
use block_feed_prototype.Prelude.{
  ℕ, ◌≡◌, Bool, true, some, List, [], ◌∷◌, map, String, ◌==◌, string_eq, nat_eq, arith, All,
  All-append, in_array, Bool-cases, inl, inr,
}
use block_feed_prototype.Promise.{M, pure, Post_any, Post-bind, Keeps, ◌>>=◌, Result-cases}
use block_feed_prototype.Js.Map
use block_feed_prototype.Js.Map.{Map}
use block_feed_prototype.Db.Schema.{Webhook, webhooks_clash}
use block_feed_prototype.Db.Table.{IsTable}
use block_feed_prototype.Db.Effects.{update_post}
use block_feed_prototype.Caching.Lru.Defs.{Nullable}
use block_feed_prototype.Graphql.Context.{Context}
use block_feed_prototype.Webhooks.Ownership.{owned_among}
use block_feed_prototype.Webhooks.Activate.{ClusterMap, call_script, activate_shard, shard_tasks}
use block_feed_prototype.Webhooks.Activate.Grouping.{webhook_ids, shard_ids}
use block_feed_prototype.Webhooks.Activate.Outcome.{call_script-Keeps}
use block_feed_prototype.Webhooks.Activate.Settled.{
  Stable, Every, done, Keeping, Sets, SomeSets, Every-update_rows, done-update_rows, SomeSets-left,
  Keeping-bind, SomeSets-right,
}

module _ {W Cluster : Type 0} (ctx : Context W Cluster)
    (run_script : Cluster → String → String → List String → M W (Unit {0})) (decimal : ℕ → String)
    (rows : W → List Webhook) (table : IsTable ctx.providers.webhook rows webhooks_clash)
    (scripts : (c : Cluster) (set_key pending_key : String) (ids : List String)
      → Keeps rows (run_script c set_key pending_key ids)) where
  pub update-Keeping :
      (good : Webhook → Bool) (ids : List String)
      → Stable good
      → Keeping rows good (
          ctx.providers.webhook.update
            (λ r. record r { is_active = 1 })
            (owned_among ctx.user_id ids))
  update-Keeping good ids s w h =
      let set =
        ctx.providers.webhook.update (λ r. record r { is_active = 1 })
          (owned_among ctx.user_id ids) in
      elim (Result-cases (set w).0) [
        | inl (n, e) ↦
            rw
              (rw e at (
                table.update_value (λ r. record r { is_active = 1 }) (owned_among ctx.user_id ids)
                  w)).1
              (Every-update_rows good (owned_among ctx.user_id ids) (rows w) s h)
        | inr (x, e) ↦
            rw
              (table.update_failed (λ r. record r { is_active = 1 }) (owned_among ctx.user_id ids) w
                (x, e))
              h
      ]

  activate_shard-Keeping :
      (good : Webhook → Bool) (c : Nullable Cluster) (shard : ℕ × List String)
      → Stable good
      → Keeping rows good (activate_shard ctx run_script decimal c shard)
  unfolding activate_shard
  activate_shard-Keeping good c (shard_id, ids) s =
      Keeping-bind rows good (call_script ctx run_script decimal c shard_id ids)
        (λ _.
          ctx.providers.webhook.update (λ r. record r { is_active = 1 })
            (owned_among ctx.user_id ids)
          >>= λ n. pure tt)
        (λ w h. rw (call_script-Keeps ctx run_script decimal rows table scripts c shard_id ids w) h)
        (λ _.
          Keeping-bind rows good
            (ctx.providers.webhook.update (λ r. record r { is_active = 1 })
              (owned_among ctx.user_id ids))
            (λ n. pure tt) (update-Keeping good ids s) (λ n w h. h))

  activate_shard-Sets :
      (id : String) (c : Nullable Cluster) (shard_id : ℕ) (ids : List String)
      → in_array id ids ≡ true
      → Sets rows (done ctx.user_id id) (activate_shard ctx run_script decimal c (shard_id, ids))
  unfolding activate_shard
  activate_shard-Sets id c shard_id ids i w =
      Post-bind (λ _ _. Unit {0}) (λ _ w'. Every (done ctx.user_id id) (rows w'))
        (call_script ctx run_script decimal c shard_id ids)
        (λ _.
          ctx.providers.webhook.update (λ r. record r { is_active = 1 })
            (owned_among ctx.user_id ids)
          >>= λ n. pure tt)
        w (Post_any (call_script ctx run_script decimal c shard_id ids w))
        (λ _ w' _.
          Post-bind (λ _ w''. Every (done ctx.user_id id) (rows w''))
            (λ _ w''. Every (done ctx.user_id id) (rows w''))
            (ctx.providers.webhook.update (λ r. record r { is_active = 1 })
              (owned_among ctx.user_id ids))
            (λ n. pure tt) w'
            (update_post ctx.providers.webhook rows webhooks_clash table
              (λ r. record r { is_active = 1 }) (owned_among ctx.user_id ids) w'
              (λ _ rs. Every (done ctx.user_id id) rs)
              (done-update_rows ctx.user_id id ids (rows w') i))
            (λ n w'' h. h))

  shards-Keeping :
      (good : Webhook → Bool) (c : Nullable Cluster) (shards : List (ℕ × List String))
      → Stable good
      → All (λ t. Keeping rows good t) (map (activate_shard ctx run_script decimal c) shards)
  shards-Keeping good c [] s = tt
  shards-Keeping good c (shard ∷ shards) s =
      (activate_shard-Keeping good c shard s, shards-Keeping good c shards s)

  pub shard_tasks-Keeping :
      (good : Webhook → Bool) (m : ClusterMap) (w : W)
      → Stable good
      → All (λ t. Keeping rows good t) (shard_tasks ctx run_script decimal m w).0
  unfolding shard_tasks
  shard_tasks-Keeping good [] w s = tt
  shard_tasks-Keeping good ((url, shards) ∷ m) w s =
      let r = ctx.caches.redis_cluster_conn.get_or_set url url w in
      All-append (λ t. Keeping rows good t) _ _ (shards-Keeping good r.0 shards s)
        (shard_tasks-Keeping good m r.1 s)

  shards-set :
      (id : String) (c : Nullable Cluster) (shard_id : ℕ) (shards : List (ℕ × List String))
      → in_array id (shard_ids shard_id (some shards)) ≡ true
      → SomeSets rows (done ctx.user_id id) (map (activate_shard ctx run_script decimal c) shards)
  unfolding Map.get in_array
  shards-set id c shard_id [] h = cc
  shards-set id c shard_id ((s, ids) ∷ shards) h = elim (Bool-cases (s == shard_id)) [
    | inl e ↦ inl (activate_shard-Sets id c s ids (ground arith))
    | inr e ↦ inr (shards-set id c shard_id shards (ground arith))
  ]

  pub shard_tasks-set :
      (id : String) (url : String) (shard_id : ℕ) (m : ClusterMap) (w : W)
      → in_array id (webhook_ids url shard_id m) ≡ true
      → SomeSets rows (done ctx.user_id id) (shard_tasks ctx run_script decimal m w).0
  unfolding shard_tasks Map.get in_array
  shard_tasks-set id url shard_id [] w h = cc
  shard_tasks-set id url shard_id ((u, shards) ∷ m) w h =
      let r = ctx.caches.redis_cluster_conn.get_or_set u u w in
      elim (Bool-cases (u == url)) [
        | inl e ↦
            SomeSets-left rows (done ctx.user_id id) _ _
              (shards-set id r.0 shard_id shards (ground arith))
        | inr e ↦
            SomeSets-right rows (done ctx.user_id id)
              (map (activate_shard ctx run_script decimal r.0) shards) _
              (shard_tasks-set id url shard_id m r.1 (ground arith))
      ]
