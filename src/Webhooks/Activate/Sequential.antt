-- ===== src/Webhooks/Activate/Sequential.antt =====
-- The promises one after the other are one of their interleavings.
use block_feed_prototype.Prelude.{ℕ, suc, ◌≡◌, refl, ap, ◌∙◌, List, [], ◌∷◌, map, String, string_eq}
use block_feed_prototype.Promise.{M, Result, ok, err, continue, ◌>>=◌, pure}
use block_feed_prototype.Caching.Lru.Defs.{Nullable}
use block_feed_prototype.Graphql.Context.{Context}
use block_feed_prototype.Webhooks.Ownership.{owned_among}
use block_feed_prototype.Webhooks.Activate.{call_script, activate_shard, all_settled}
use block_feed_prototype.Webhooks.Activate.Interleaved.{
  Progress, before_script, settled, after_script, after_update, start_all, advance, advance_at, run,
}

module _ {W Cluster : Type 0} (ctx : Context W Cluster)
    (run_script : Cluster → String → String → List String → M W (Unit {0}))
    (decimal : ℕ → String) where
  abbrev pub tasks_of : List (Nullable Cluster × (ℕ × List String)) → List (M W (Unit {0}))
  tasks_of shards = map (λ s. activate_shard ctx run_script decimal s.0 s.1) shards

  -- Both turns of one promise.
  twice : Progress Cluster → W → Progress Cluster × W
  twice p w =
      advance ctx run_script decimal (advance ctx run_script decimal p w).0
        (advance ctx run_script decimal p w).1

  settle : Result (Unit {0}) × W → Progress Cluster × W
  settle (r, w) = (settled r, w)

  update_turn :
      (r : Result ℕ × W)
      → (after_update {Cluster = Cluster} r.0, r.1) ≡ settle (continue r (λ n. pure tt))
  unfolding settle
  update_turn (ok n, w) = refl
  update_turn (err e, w) = refl

  script_turn :
      (ids : List String) (r : Result (Unit {0}) × W)
      → advance ctx run_script decimal (after_script ids r.0) r.1
        ≡ settle (
            continue r (λ _.
              ctx.providers.webhook.update
                (λ r. record r { is_active = 1 })
                (owned_among ctx.user_id ids)
              >>= λ n. pure tt))
  unfolding advance settle
  script_turn ids (ok a, w) = update_turn (
      ctx.providers.webhook.update (λ r. record r { is_active = 1 }) (owned_among ctx.user_id ids)
        w)
  script_turn ids (err e, w) = refl

  twice-activate_shard :
      (c : Nullable Cluster) (shard_id : ℕ) (ids : List String) (w : W)
      → twice (before_script c shard_id ids) w
        ≡ settle (activate_shard ctx run_script decimal c (shard_id, ids) w)
  unfolding twice advance activate_shard
  twice-activate_shard c shard_id ids w =
      script_turn ids (call_script ctx run_script decimal c shard_id ids w)

  run-later :
      (schedule : List ℕ) (p : Progress Cluster) (ps : List (Progress Cluster)) (w : W)
      → run ctx run_script decimal (map suc schedule) (p ∷ ps) w ≡ (
        p ∷ (run ctx run_script decimal schedule ps w).0,
        (run ctx run_script decimal schedule ps w).1,
      )
  unfolding run advance_at
  run-later [] p ps w = refl
  run-later (n ∷ schedule) p ps w =
      run-later schedule p (advance_at ctx run_script decimal n ps w).0
        (advance_at ctx run_script decimal n ps w).1

  -- The schedule in which each promise has both its turns before the next one.
  abbrev pub one_by_one : List (Nullable Cluster × (ℕ × List String)) → List ℕ
  one_by_one [] = []
  one_by_one (s ∷ shards) = 0 ∷ 0 ∷ map suc (one_by_one shards)

  -- Run one by one, the promises settle as `Promise.allSettled` reports them here, and leave the same
  -- state.
  pub run-one_by_one :
      (shards : List (Nullable Cluster × (ℕ × List String))) (w : W)
      → run ctx run_script decimal (one_by_one shards) (start_all shards) w
        ≡ (map settled (all_settled (tasks_of shards) w).0, (all_settled (tasks_of shards) w).1)
  unfolding run advance_at all_settled twice settle
  run-one_by_one [] w = refl
  run-one_by_one ((c, (shard_id, ids)) ∷ shards) w =
      let r = activate_shard ctx run_script decimal c (shard_id, ids) w in
      ap
        (λ x. run ctx run_script decimal (map suc (one_by_one shards)) (x.0 ∷ start_all shards) x.1)
        (twice-activate_shard c shard_id ids w)
      ∙ run-later (one_by_one shards) (settled r.0) (start_all shards) r.1
      ∙ ap (λ x. (settled r.0 ∷ x.0, x.1)) (run-one_by_one shards r.1)
