-- ===== src/Webhooks/Activate/Interleaved.antt =====
-- The promises of an activation in any interleaving: a schedule says whose turn it is.
use block_feed_prototype.Prelude.{
  ℕ, zero, suc, ◌≡◌, ◌⊎◌, inl, inr, true, false, List, [], ◌∷◌, String, ◌==◌, ◌&&◌, arith,
  string_eq, nat_eq, in_array, All,
}
use block_feed_prototype.Promise.{M, Result, ok, err, Keeps, Post}
use block_feed_prototype.Db.Schema.{Webhook, webhooks_clash}
use block_feed_prototype.Db.Table.{IsTable}
use block_feed_prototype.Db.Effects.{update_post}
use block_feed_prototype.Caching.Lru.Defs.{Nullable}
use block_feed_prototype.Graphql.Context.{Context}
use block_feed_prototype.Webhooks.Ownership.{owned_among}
use block_feed_prototype.Webhooks.Activate.{call_script}
use block_feed_prototype.Webhooks.Activate.Outcome.{IsFulfilled, call_script-Keeps}
use block_feed_prototype.Webhooks.Activate.Settled.{Every, done, done-Stable, done-update_rows}
use block_feed_prototype.Webhooks.Activate.Tasks.{update-Keeping}

-- Where a promise stands: before its script, before its update, or settled.
pub data Progress (Cluster : Type 0) : Type 0 where
  before_script : Nullable Cluster → ℕ → List String → Progress Cluster
  before_update : List String → Progress Cluster
  settled : Result (Unit {0}) → Progress Cluster

abbrev pub after_script : {Cluster : Type 0} → List String → Result (Unit {0}) → Progress Cluster
after_script ids (ok a) = before_update ids
after_script ids (err e) = settled (err e)

abbrev pub after_update : {Cluster : Type 0} → Result ℕ → Progress Cluster
after_update (ok n) = settled (ok tt)
after_update (err e) = settled (err e)

abbrev pub start_all :
    {Cluster : Type 0} → List (Nullable Cluster × (ℕ × List String)) → List (Progress Cluster)
start_all [] = []
start_all ((c, (shard_id, ids)) ∷ shards) = before_script c shard_id ids ∷ start_all shards

abbrev pub AllFulfilled : {Cluster : Type 0} → List (Progress Cluster) → Type 0
AllFulfilled [] = Unit
AllFulfilled (settled r ∷ ps) = IsFulfilled r × AllFulfilled ps
AllFulfilled (_ ∷ ps) = ⊥

-- One of the shards holds the identifier.
abbrev pub IsAsked :
    {Cluster : Type 0} → String → List (Nullable Cluster × (ℕ × List String)) → Type 0
IsAsked id [] = ⊥
IsAsked id ((c, (shard_id, ids)) ∷ shards) = (in_array id ids ≡ true) ⊎ IsAsked id shards

module _ {W Cluster : Type 0} (ctx : Context W Cluster)
    (run_script : Cluster → String → String → List String → M W (Unit {0}))
    (decimal : ℕ → String) where
  -- A promise runs up to its next `await`.
  unfoldable pub advance : Progress Cluster → W → Progress Cluster × W
  advance (before_script c shard_id ids) w =
      let (r, w') = call_script ctx run_script decimal c shard_id ids w in (after_script ids r, w')
  advance (before_update ids) w =
      let (r, w') =
        ctx.providers.webhook.update (λ r. record r { is_active = 1 }) (owned_among ctx.user_id ids)
          w in
      (after_update r, w')
  advance (settled r) w = (settled r, w)

  unfoldable pub advance_at : ℕ → List (Progress Cluster) → W → List (Progress Cluster) × W
  unfolding advance
  advance_at n [] w = ([], w)
  advance_at zero (p ∷ ps) w = let (p', w') = advance p w in (p' ∷ ps, w')
  advance_at (suc n) (p ∷ ps) w = let (ps', w') = advance_at n ps w in (p ∷ ps', w')

  unfoldable pub run : List ℕ → List (Progress Cluster) → W → List (Progress Cluster) × W
  unfolding advance_at
  run [] ps w = (ps, w)
  run (n ∷ schedule) ps w = let (ps', w') = advance_at n ps w in run schedule ps' w'

  module _ (rows : W → List Webhook) (table : IsTable ctx.providers.webhook rows webhooks_clash)
      (scripts : (c : Cluster) (set_key pending_key : String) (ids : List String)
        → Keeps rows (run_script c set_key pending_key ids))
      (id : String) where
    abbrev AllDone : List Webhook → Type 0
    AllDone rs = Every (done ctx.user_id id) rs

    -- The promise will set the webhook with the identifier, has set it, or was rejected.
    abbrev Sees : Progress Cluster → List Webhook → Type 0
    Sees (before_script c shard_id ids) rs = in_array id ids ≡ true
    Sees (before_update ids) rs = in_array id ids ≡ true
    Sees (settled (ok a)) rs = AllDone rs
    Sees (settled (err e)) rs = Unit

    abbrev SomeSees : List (Progress Cluster) → List Webhook → Type 0
    SomeSees [] rs = ⊥
    SomeSees (p ∷ ps) rs = Sees p rs ⊎ SomeSees ps rs

    advance-AllDone :
        (p : Progress Cluster) (w : W) → AllDone (rows w) → AllDone (rows (advance p w).1)
    unfolding advance
    advance-AllDone (before_script c shard_id ids) w h =
        rw (call_script-Keeps ctx run_script decimal rows table scripts c shard_id ids w) h
    advance-AllDone (before_update ids) w h =
        update-Keeping ctx run_script decimal rows table scripts (done ctx.user_id id) ids
          (done-Stable ctx.user_id id) w h
    advance-AllDone (settled r) w h = h

    after_script-Sees :
        (ids : List String) (r : Result (Unit {0})) (rs : List Webhook)
        → in_array id ids ≡ true
        → Sees (after_script ids r) rs
    after_script-Sees ids (ok a) rs h = h
    after_script-Sees ids (err e) rs h = tt

    after_update-Sees :
        (r : Result ℕ × W) → Post r (λ _ w'. AllDone (rows w')) → Sees (after_update r.0) (rows r.1)
    after_update-Sees (ok n, w) h = h
    after_update-Sees (err e, w) h = tt

    advance-Sees :
        (p : Progress Cluster) (w : W)
        → Sees p (rows w)
        → Sees (advance p w).0 (rows (advance p w).1)
    unfolding advance
    advance-Sees (before_script c shard_id ids) w h =
        after_script-Sees ids (call_script ctx run_script decimal c shard_id ids w).0 _ h
    advance-Sees (before_update ids) w h = after_update-Sees _ (
        update_post ctx.providers.webhook rows webhooks_clash table
          (λ r. record r { is_active = 1 }) (owned_among ctx.user_id ids) w (λ _ rs. AllDone rs)
          (done-update_rows ctx.user_id id ids (rows w) h))
    advance-Sees (settled r) w h = h

    Sees-later : (p q : Progress Cluster) (w : W) → Sees q (rows w) → Sees q (rows (advance p w).1)
    Sees-later p (before_script c shard_id ids) w h = h
    Sees-later p (before_update ids) w h = h
    Sees-later p (settled (ok a)) w h = advance-AllDone p w h
    Sees-later p (settled (err e)) w h = tt

    SomeSees-later :
        (p : Progress Cluster) (ps : List (Progress Cluster)) (w : W)
        → SomeSees ps (rows w)
        → SomeSees ps (rows (advance p w).1)
    SomeSees-later p [] w h = elim h [ ]
    SomeSees-later p (q ∷ ps) w (inl h) = inl (Sees-later p q w h)
    SomeSees-later p (q ∷ ps) w (inr h) = inr (SomeSees-later p ps w h)

    advance_at-Sees :
        (n : ℕ) (q : Progress Cluster) (ps : List (Progress Cluster)) (w : W)
        → Sees q (rows w)
        → Sees q (rows (advance_at n ps w).1)
    unfolding advance_at
    advance_at-Sees n q [] w h = h
    advance_at-Sees zero q (p ∷ ps) w h = Sees-later p q w h
    advance_at-Sees (suc n) q (p ∷ ps) w h = advance_at-Sees n q ps w h

    advance_at-SomeSees :
        (n : ℕ) (ps : List (Progress Cluster)) (w : W)
        → SomeSees ps (rows w)
        → SomeSees (advance_at n ps w).0 (rows (advance_at n ps w).1)
    unfolding advance_at
    advance_at-SomeSees n [] w h = h
    advance_at-SomeSees zero (p ∷ ps) w (inl h) = inl (advance-Sees p w h)
    advance_at-SomeSees zero (p ∷ ps) w (inr h) = inr (SomeSees-later p ps w h)
    advance_at-SomeSees (suc n) (p ∷ ps) w (inl h) = inl (advance_at-Sees n p ps w h)
    advance_at-SomeSees (suc n) (p ∷ ps) w (inr h) = inr (advance_at-SomeSees n ps w h)

    run-SomeSees :
        (schedule : List ℕ) (ps : List (Progress Cluster)) (w : W)
        → SomeSees ps (rows w)
        → SomeSees (run schedule ps w).0 (rows (run schedule ps w).1)
    unfolding run
    run-SomeSees [] ps w h = h
    run-SomeSees (n ∷ schedule) ps w h =
        run-SomeSees schedule (advance_at n ps w).0 (advance_at n ps w).1
          (advance_at-SomeSees n ps w h)

    fulfilled-AllDone :
        (ps : List (Progress Cluster)) (rs : List Webhook)
        → AllFulfilled ps
        → SomeSees ps rs
        → AllDone rs
    fulfilled-AllDone [] rs f h = elim h [ ]
    fulfilled-AllDone (before_script c shard_id ids ∷ ps) rs f h = elim f [ ]
    fulfilled-AllDone (before_update ids ∷ ps) rs f h = elim f [ ]
    fulfilled-AllDone (settled (ok a) ∷ ps) rs f (inl h) = h
    fulfilled-AllDone (settled (err e) ∷ ps) rs f (inl h) = elim f.0 [ ]
    fulfilled-AllDone (settled r ∷ ps) rs f (inr h) = fulfilled-AllDone ps rs f.1 h

    start-SomeSees :
        (shards : List (Nullable Cluster × (ℕ × List String))) (rs : List Webhook)
        → IsAsked id shards
        → SomeSees (start_all shards) rs
    start-SomeSees [] rs h = elim h [ ]
    start-SomeSees ((c, (shard_id, ids)) ∷ shards) rs (inl h) = inl h
    start-SomeSees ((c, (shard_id, ids)) ∷ shards) rs (inr h) = inr (start-SomeSees shards rs h)

    -- In whatever order the promises of the shards take their turns, and however often, once all of
    -- them are fulfilled no webhook of the user with an identifier of one of the shards is inactive,
    -- if the scripts leave the webhooks of the database alone.
    pub run-activates :
        (shards : List (Nullable Cluster × (ℕ × List String))) (schedule : List ℕ) (w : W)
        → IsAsked id shards
        → AllFulfilled (run schedule (start_all shards) w).0
        → All
            (λ r. (r.customer_id == ctx.user_id && r.is_active == 0 && r.id == id) ≡ false)
            (rows (run schedule (start_all shards) w).1)
    run-activates shards schedule w asked f = not_done _ (
        fulfilled-AllDone (run schedule (start_all shards) w).0 _ f
          (run-SomeSees schedule (start_all shards) w (start-SomeSees shards (rows w) asked)))
      where
        not_done :
            (rs : List Webhook)
            → AllDone rs
            → All (λ r. (r.customer_id == ctx.user_id && r.is_active == 0 && r.id == id) ≡ false) rs
        not_done [] h = tt
        not_done (r ∷ rs) h = (ground arith, not_done rs h.1)
