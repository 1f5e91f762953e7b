-- ===== src/Webhooks/Activate/Outcome.antt =====
-- What an activation leaves alone, and when it reports success.
use block_feed_prototype.Prelude.{
  ℕ, ◌≡◌, refl, ap, ◌∙◌, Bool, ◌&&◌, List, [], ◌∷◌, map, keep, String, ◌==◌, string_eq, nat_eq,
  arith, All, All-append, in_array,
}
use block_feed_prototype.Promise.{
  M, Result, ok, err, pure, Keeps, Keeps-bind, Keeps-pure, Fails, Fails-first, Post, ◌>>=◌,
  Post-map, Fails-Keeps,
}
use block_feed_prototype.Db.Schema.{Blockchain, Webhook, webhooks_clash}
use block_feed_prototype.Db.Table.{IsTable, update_rows}
use block_feed_prototype.Db.Rows.{keep-update_rows, map-update_rows}
use block_feed_prototype.Db.Effects.{update-Keeps}
use block_feed_prototype.Caching.Lru.Defs.{Nullable, undefined, null, val}
use block_feed_prototype.Graphql.Context.{Context}
use block_feed_prototype.Webhooks.Ownership.{of_others, owned_among}
use block_feed_prototype.Webhooks.Activate.{
  ClusterMap, call_script, activate_shard, shard_tasks, all_settled, throw_rejected, report,
  settle_tasks, activate_results, add_results, handler,
}

-- What a run of promises leaves alone, if each of them does, fulfilled or not.
all_settled-Keeps :
    {W X : Type 0} (view : W → X) (tasks : List (M W (Unit {0})))
    → All (λ t. (w : W) → view (t w).1 ≡ view w) tasks
    → (w : W) → view (all_settled tasks w).1 ≡ view w
unfolding all_settled
all_settled-Keeps view [] h w = refl
all_settled-Keeps view (t ∷ tasks) h w = all_settled-Keeps view tasks h.1 (t w).1 ∙ h.0 w

pub throw_rejected-keeps :
    {W : Type 0} (rs : List (Result (Unit {0}))) (w : W) → (throw_rejected rs w).1 ≡ w
unfolding throw_rejected
throw_rejected-keeps [] w = refl
throw_rejected-keeps (ok a ∷ rs) w = throw_rejected-keeps rs w
throw_rejected-keeps (err e ∷ rs) w = refl

abbrev pub IsFulfilled : Result (Unit {0}) → Type 0
IsFulfilled (ok a) = Unit
IsFulfilled (err e) = ⊥

pub throw_rejected-Post :
    {W : Type 0} (rs : List (Result (Unit {0}))) (w : W)
    → Post (throw_rejected rs w) (λ _ _. All IsFulfilled rs)
unfolding throw_rejected
throw_rejected-Post [] w = tt
throw_rejected-Post (ok a ∷ rs) w =
    Post-map (λ _ _. All IsFulfilled rs) _ _ (λ _ _ h. (tt, h)) (throw_rejected-Post rs w)
throw_rejected-Post (err e ∷ rs) w = tt

-- An activation sets no column but this one.
abbrev pub but_active : Webhook → Webhook
but_active r = record r { is_active = 0 }

module _ {W Cluster : Type 0} (ctx : Context W Cluster)
    (run_script : Cluster → String → String → List String → M W (Unit {0})) (decimal : ℕ → String)
    (rows : W → List Webhook) (table : IsTable ctx.providers.webhook rows webhooks_clash)
    (scripts : (c : Cluster) (set_key pending_key : String) (ids : List String)
      → Keeps rows (run_script c set_key pending_key ids)) where
  pub call_script-Keeps :
      (c : Nullable Cluster) (shard_id : ℕ) (ids : List String)
      → Keeps rows (call_script ctx run_script decimal c shard_id ids)
  call_script-Keeps undefined shard_id ids w = refl
  call_script-Keeps null shard_id ids w = refl
  call_script-Keeps (val c) shard_id ids w = scripts c _ _ ids w

  -- If the script fails for a shard, its promise is rejected and the database keeps the status of every
  -- webhook, also of those that the script had put into the set before it failed.
  pub activate_shard_failed :
      (c : Nullable Cluster) (shard_id : ℕ) (ids : List String) (w : W)
      → Fails (call_script ctx run_script decimal c shard_id ids w)
      → Fails (activate_shard ctx run_script decimal c (shard_id, ids) w)
        × (rows (activate_shard ctx run_script decimal c (shard_id, ids) w).1 ≡ rows w)
  unfolding activate_shard
  activate_shard_failed c shard_id ids w f = (
    Fails-first (call_script ctx run_script decimal c shard_id ids) _ w f,
    Fails-Keeps rows (call_script ctx run_script decimal c shard_id ids) _ w f
        (call_script-Keeps c shard_id ids),
  )

  module _ {X : Type 0} (view : List Webhook → X)
      (updates : (ids : List String) (rs : List Webhook)
        → view (update_rows (λ r. record r { is_active = 1 }) (owned_among ctx.user_id ids) rs)
          ≡ view rs) where
    activate_shard-Keeps :
        (c : Nullable Cluster) (s : ℕ × List String)
        → Keeps (λ w. view (rows w)) (activate_shard ctx run_script decimal c s)
    unfolding activate_shard
    activate_shard-Keeps c (shard_id, ids) =
        Keeps-bind (λ w. view (rows w)) (call_script ctx run_script decimal c shard_id ids)
          (λ _.
            ctx.providers.webhook.update (λ r. record r { is_active = 1 })
              (owned_among ctx.user_id ids)
            >>= λ n. pure tt)
          (λ w. ap view (call_script-Keeps c shard_id ids w))
          (λ _.
            Keeps-bind (λ w. view (rows w))
              (ctx.providers.webhook.update (λ r. record r { is_active = 1 })
                (owned_among ctx.user_id ids))
              (λ n. pure tt)
              (update-Keeps ctx.providers.webhook rows webhooks_clash table view _
                (owned_among ctx.user_id ids) (updates ids))
              (λ n. Keeps-pure (λ w. view (rows w)) tt))

    shards-keep :
        (c : Nullable Cluster) (shards : List (ℕ × List String))
        → All
            (λ t. Keeps (λ w. view (rows w)) t)
            (map (activate_shard ctx run_script decimal c) shards)
    shards-keep c [] = tt
    shards-keep c (s ∷ shards) = (activate_shard-Keeps c s, shards-keep c shards)

    module _
        (conns : (key url : String) (w : W)
          → rows (ctx.caches.redis_cluster_conn.get_or_set key url w).1 ≡ rows w) where
      shard_tasks-Keeps :
          (m : ClusterMap) (w : W)
          → All (λ t. Keeps (λ w. view (rows w)) t) (shard_tasks ctx run_script decimal m w).0
            × (rows (shard_tasks ctx run_script decimal m w).1 ≡ rows w)
      unfolding shard_tasks
      shard_tasks-Keeps [] w = (tt, refl)
      shard_tasks-Keeps ((url, shards) ∷ m) w =
          let r = ctx.caches.redis_cluster_conn.get_or_set url url w in
          let (later, same) = shard_tasks-Keeps m r.1 in
          (
            All-append (λ t. Keeps (λ w. view (rows w)) t) _ _ (shards-keep r.0 shards) later,
            same ∙ conns url url w,
          )

      settle_tasks-Keeps :
          (tasks : List (M W (Unit {0})))
          → All (λ t. Keeps (λ w. view (rows w)) t) tasks
          → Keeps (λ w. view (rows w)) (settle_tasks tasks)
      unfolding settle_tasks report
      settle_tasks-Keeps tasks h w =
          Keeps-bind (λ w. view (rows w)) (throw_rejected (all_settled tasks w).0) (λ _. pure 1)
            (λ w'. ap (λ v. view (rows v)) (throw_rejected-keeps (all_settled tasks w).0 w'))
            (λ _. Keeps-pure {A = ℕ} (λ w. view (rows w)) 1) (all_settled tasks w).1
          ∙ all_settled-Keeps (λ w. view (rows w)) tasks h w

      activate_results-Keeps :
          (results : List (Webhook × Blockchain))
          → Keeps (λ w. view (rows w)) (activate_results ctx run_script decimal results)
      unfolding activate_results
      activate_results-Keeps [] w = refl
      activate_results-Keeps (r ∷ results) w =
          let m = add_results [] (r ∷ results) in
          let h = shard_tasks-Keeps m w in
          settle_tasks-Keeps (shard_tasks ctx run_script decimal m w).0 h.0
            (shard_tasks ctx run_script decimal m w).1
          ∙ ap view h.1

      handler-Keeps :
          ((p : Webhook → Bool) → Keeps rows (ctx.providers.webhook_with_blockchain p))
          → (ids : List String) → Keeps (λ w. view (rows w)) (handler ctx run_script decimal ids)
      unfolding handler
      handler-Keeps finds [] w = refl
      handler-Keeps finds (id ∷ ids) w =
          let test = λ (r : Webhook).
            r.customer_id == ctx.user_id && r.is_active == 0 && in_array r.id (id ∷ ids) in
          Keeps-bind (λ w. view (rows w)) (ctx.providers.webhook_with_blockchain test)
            (activate_results ctx run_script decimal) (λ w. ap view (finds test w))
            activate_results-Keeps w

  -- However an activation ends, also if some or all of its promises are rejected, it has changed no
  -- webhook of anybody but the user, has added and removed none, and has set no column but
  -- `is_active`, if the query, the scripts and the connections leave the webhooks of the database
  -- alone.
  pub activate-owned :
      ((key url : String) (w : W)
        → rows (ctx.caches.redis_cluster_conn.get_or_set key url w).1 ≡ rows w)
      → ((p : Webhook → Bool) → Keeps rows (ctx.providers.webhook_with_blockchain p))
      → (ids : List String) (w : W)
      → (keep (of_others ctx.user_id) (rows (handler ctx run_script decimal ids w).1)
          ≡ keep (of_others ctx.user_id) (rows w))
        × (map but_active (rows (handler ctx run_script decimal ids w).1) ≡ map but_active (rows w))
  activate-owned conns finds ids w = (
    handler-Keeps (keep (of_others ctx.user_id))
        (λ ids rs.
          keep-update_rows (of_others ctx.user_id) (owned_among ctx.user_id ids)
            (λ r. record r { is_active = 1 }) (λ r e. ground arith) rs)
        conns finds ids w,
    handler-Keeps (map but_active)
        (λ ids rs.
          map-update_rows but_active (owned_among ctx.user_id ids) (λ r. record r { is_active = 1 })
            (λ r. refl) rs)
        conns finds ids w,
  )
