-- ===== src/Webhooks/Activate/Complete.antt =====
-- What a successful activation has achieved: no webhook that was asked for is left inactive.
use mathlib.Core.List.{map-map}
use block_feed_prototype.Prelude.{
  ℕ, ◌≡◌, refl, sym, ap, ◌∙◌, Bool, true, false, List, [], ◌∷◌, map, keep, String, string_eq,
  nat_eq, All, in_array, subst,
}
use block_feed_prototype.Promise.{
  M, Result, pure, Post, Post-bind, Post-map, Post_of_OnOk, OnOk_of_Post, Keeps,
}
use block_feed_prototype.Db.Schema.{Blockchain, Webhook, webhooks_clash}
use block_feed_prototype.Db.Table.{IsTable}
use block_feed_prototype.Graphql.Context.{Context}
use block_feed_prototype.Webhooks.Activate.{
  ClusterMap, shard_tasks, all_settled, throw_rejected, report, settle_tasks, activate_results,
  add_results, handler,
}
use block_feed_prototype.Webhooks.Activate.Grouping.{grouped}
use block_feed_prototype.Webhooks.Activate.Outcome.{
  IsFulfilled, throw_rejected-Post, throw_rejected-keeps,
}
use block_feed_prototype.Webhooks.Activate.Settled.{
  Every, done, done-Stable, all_settled-Keeping, all_settled-sets,
}
use block_feed_prototype.Webhooks.Activate.Covered.{
  selected, covered, covered-Stable, covered-keep, none_asked_for, unselected, group_of,
}
use block_feed_prototype.Webhooks.Activate.Tasks.{shard_tasks-Keeping, shard_tasks-set}

module _ {W Cluster : Type 0} (ctx : Context W Cluster)
    (run_script : Cluster → String → String → List String → M W (Unit {0})) (decimal : ℕ → String)
    (rows : W → List Webhook) (table : IsTable ctx.providers.webhook rows webhooks_clash)
    (scripts : (c : Cluster) (set_key pending_key : String) (ids : List String)
      → Keeps rows (run_script c set_key pending_key ids)) where
  pub settle-done :
      (results : List (Webhook × Blockchain)) (id : String) (w w' : W)
      → let tasks = (shard_tasks ctx run_script decimal (add_results [] results) w).0 in
        in_array id (map (λ x. x.0.id) results) ≡ true
        → All IsFulfilled (all_settled tasks w').0
        → Every (done ctx.user_id id) (rows (all_settled tasks w').1)
  settle-done results id w w' i f =
      let (url, shard_id, found) = group_of id results i in
      let m = add_results [] results in
      all_settled-sets rows (done ctx.user_id id) (shard_tasks ctx run_script decimal m w).0
        (shard_tasks-Keeping ctx run_script decimal rows table scripts (done ctx.user_id id) m w
          (done-Stable ctx.user_id id))
        (shard_tasks-set ctx run_script decimal rows table scripts id url shard_id m w
          (ap (in_array id) (grouped url shard_id results) ∙ found))
        w' f

  report-fulfilled :
      (settled : List (Result (Unit {0}))) (w : W) (Q : W → Type 0)
      → (All IsFulfilled settled → Q w)
      → Post (report settled w) (λ _ w'. Q w')
  unfolding report
  report-fulfilled settled w Q q =
      Post-bind (λ _ w'. All IsFulfilled settled × (w' ≡ w)) (λ _ w'. Q w') (throw_rejected settled)
        (λ _. pure 1) w
        (Post_of_OnOk (λ _. All IsFulfilled settled) (λ w. w) (throw_rejected settled w) w
          (OnOk_of_Post (λ _ _. All IsFulfilled settled) (throw_rejected settled w)
            (throw_rejected-Post settled w))
          (throw_rejected-keeps settled w))
        (λ _ w' h. rw h.1 (q h.0))

  module _
      (conns : (key url : String) (w : W)
        → rows (ctx.caches.redis_cluster_conn.get_or_set key url w).1 ≡ rows w) where
    shard_tasks-rows :
        (m : ClusterMap) (w : W) → rows (shard_tasks ctx run_script decimal m w).1 ≡ rows w
    unfolding shard_tasks
    shard_tasks-rows [] w = refl
    shard_tasks-rows ((url, shards) ∷ m) w =
        shard_tasks-rows m (ctx.caches.redis_cluster_conn.get_or_set url url w).1 ∙ conns url url w

    activate_results-Post :
        (ids : List String) (results : List (Webhook × Blockchain)) (w : W)
        → Every (covered ctx.user_id ids (map (λ x. x.0.id) results)) (rows w)
        → Post
            (activate_results ctx run_script decimal results w)
            (λ _ w'. All (λ r. selected ctx.user_id ids r ≡ false) (rows w'))
    unfolding activate_results settle_tasks in_array
    activate_results-Post ids [] w h = unselected ctx.user_id ids [] (rows w) h (λ id i. cc)
    activate_results-Post ids (x ∷ results) w h =
        let all = x ∷ results in
        let m = add_results [] all in
        let (tasks, w1) = shard_tasks ctx run_script decimal m w in
        let (settled, w2) = all_settled tasks w1 in
        let good = covered ctx.user_id ids (map (λ x. x.0.id) all) in
        let stable = covered-Stable ctx.user_id ids (map (λ x. x.0.id) all) in
        report-fulfilled settled w2 (λ w'. All (λ r. selected ctx.user_id ids r ≡ false) (rows w'))
          (λ f.
            unselected ctx.user_id ids (map (λ x. x.0.id) all) (rows w2)
              (all_settled-Keeping rows good tasks
                (shard_tasks-Keeping ctx run_script decimal rows table scripts good m w stable) w1
                (rw (shard_tasks-rows m w) h))
              (λ id i. settle-done all id w w1 i f))

    -- If an activation is fulfilled, no webhook of the user that was asked for is left inactive, even
    -- where the identifiers name webhooks of several clusters and shards, if the query finds the rows
    -- that pass, each with its blockchain, and the query, the scripts and the connections leave the
    -- webhooks of the database alone.
    pub activate-leaves_none :
        ((p : Webhook → Bool) (w : W)
          → Post
              (ctx.providers.webhook_with_blockchain p w)
              (λ results w'. (map (λ x. x.0) results ≡ keep p (rows w)) × (rows w' ≡ rows w)))
        → (ids : List String) (w : W)
        → Post
            (handler ctx run_script decimal ids w)
            (λ _ w'. All (λ r. selected ctx.user_id ids r ≡ false) (rows w'))
    unfolding handler in_array
    activate-leaves_none finds [] w = none_asked_for ctx.user_id (rows w)
    activate-leaves_none finds (id ∷ ids) w =
        let test = selected ctx.user_id (id ∷ ids) in
        Post-bind
          (λ results w'.
            Every (covered ctx.user_id (id ∷ ids) (map (λ x. x.0.id) results)) (rows w'))
          (λ _ w'. All (λ r. selected ctx.user_id (id ∷ ids) r ≡ false) (rows w'))
          (ctx.providers.webhook_with_blockchain test) (activate_results ctx run_script decimal) w
          (Post-map _ _ (ctx.providers.webhook_with_blockchain test w)
            (λ results w' h.
              subst (Every (covered ctx.user_id (id ∷ ids) (map (λ x. x.0.id) results))) (sym h.1) (
                covered-keep ctx.user_id (id ∷ ids) (rows w) (map (λ x. x.0.id) results)
                  (sym (map-map (λ r. r.id) (λ x. x.0) results) ∙ ap (map (λ r. r.id)) h.0)))
            (finds test w))
          (λ results w' h. activate_results-Post (id ∷ ids) results w' h)
