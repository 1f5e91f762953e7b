-- ===== src/Examples/Activation.antt =====
-- An activation on a Redis in memory, and on the rows of two users.
use block_feed_prototype.Prelude.{
  ℕ, ◌≡◌, refl, Bool, false, ◌||◌, ◌&&◌, List, [], ◌∷◌, map, keep, String, ◌==◌, string_eq, nat_eq,
  in_array, All, inl, inr, ◌∙◌, if◌then◌else◌, arith,
}
use mathlib.Core.List.{map-map, map-id}
use block_feed_prototype.Promise.{M, ok, err, other, Post, Fails}
use block_feed_prototype.Stripe.Types.{complete}
use block_feed_prototype.Redis.{Commands, Job, activate}
use block_feed_prototype.Redis.Activation.{
  IsRedis, IsActivation, bit, activate-IsActivation, activate_again,
}
use block_feed_prototype.Webhooks.Activate.{add_results, handler}
use block_feed_prototype.Webhooks.Activate.Grouping.{webhook_ids, belongs, grouped}
use block_feed_prototype.Webhooks.Activate.Outcome.{but_active, activate-owned}
use block_feed_prototype.Webhooks.Activate.Covered.{selected}
use block_feed_prototype.Webhooks.Activate.Complete.{activate-leaves_none}
use block_feed_prototype.Webhooks.Activate.Interleaved.{
  start_all, advance, advance_at, run, run-activates,
}
use block_feed_prototype.Caching.Lru.Defs.{Nullable, val}
use block_feed_prototype.Webhooks.Ownership.{of_others}
use block_feed_prototype.Db.Schema.{Webhook}
use block_feed_prototype.Examples.World.{
  World, context, start, eth, hook, webhooks_of, webhook_table-IsTable, with_blockchain,
}

-- The sets and the sorted sets of a shard.
pub record Shard : Type 0 where
  pub member : String → String → Bool
  pub queued : String → String → Bool

abbrev add_all : String → List String → (String → String → Bool) → String → String → Bool
add_all k ids held j id = held j id || (j == k && in_array id ids)

abbrev zadd_entries : String → List (ℕ × String) → M Shard ℕ
zadd_entries k [] w = (err (other "wrong number of arguments"), w)
zadd_entries k (e ∷ es) w =
    (ok 1, record w { queued = add_all k (map (λ e. e.1) (e ∷ es)) w.queued })

abbrev commands : Commands Shard
commands = record {
  smismember = λ k ids w. (ok (map (λ id. bit (w.member k id)) ids), w);
  sadd = λ k ids w. (ok 1, record w { member = add_all k ids w.member });
  zadd = zadd_entries;
  xack = λ s g ids w. (ok 1, w);
  xdel = λ s ids w. (ok 1, w);
}

abbrev member_of : Shard → String → String → Bool
member_of w = w.member

abbrev queued_of : Shard → String → String → Bool
queued_of w = w.queued

zadd_lawful :
    (k : String) (es : List (ℕ × String)) (w : Shard)
    → Post (zadd_entries k es w) (λ n w'.
      ((j m : String)
        → queued_of w' j m ≡ (queued_of w j m || (j == k && in_array m (map (λ e. e.1) es))))
      × (member_of w' ≡ member_of w))
zadd_lawful k [] w = tt
zadd_lawful k (e ∷ es) w = (λ j m. refl, refl)

commands-IsRedis : IsRedis commands member_of queued_of
commands-IsRedis = record {
  smismember_value = λ k ids w. (refl, refl, refl);
  sadd_value = λ k ids w. (λ j id. refl, refl);
  zadd_value = zadd_lawful;
  zadd_nothing = λ k w. (other "wrong number of arguments", refl);
}

abbrev one_member : Shard
one_member = record { member = λ k id. k == "set" && id == "w1"; queued = λ k m. false }

abbrev encode : Job → String
encode job = job.webhook_id

activate-IsActivation_example :
    Post (activate encode commands "set" "pending" ("w1" ∷ "w2" ∷ []) one_member) (λ _ w'.
      IsActivation encode member_of queued_of "set" "pending" ("w1" ∷ "w2" ∷ []) one_member w')
activate-IsActivation_example =
    activate-IsActivation encode commands member_of queued_of commands-IsRedis "set" "pending"
      ("w1" ∷ "w2" ∷ []) one_member

activate_again_example : Fails (activate encode commands "set" "pending" ("w1" ∷ []) one_member)
unfolding string_eq
activate_again_example =
    activate_again encode commands member_of queued_of commands-IsRedis "set" "pending" ("w1" ∷ [])
      one_member (refl, tt)

grouped_example :
    webhook_ids "redis://a" 0
      (add_results [] ((hook "w1" "ann" "1" 0, eth) ∷ (hook "w2" "ann" "2" 0, eth) ∷ []))
    ≡ map
        (λ r. r.0.id)
        (keep
          (belongs "redis://a" 0)
          ((hook "w1" "ann" "1" 0, eth) ∷ (hook "w2" "ann" "2" 0, eth) ∷ []))
grouped_example =
    grouped "redis://a" 0 ((hook "w1" "ann" "1" 0, eth) ∷ (hook "w2" "ann" "2" 0, eth) ∷ [])

-- A script that fails on one of the clusters.
abbrev script : String → String → String → List String → M World (Unit {0})
script cluster set_key pending_key ids w =
    if cluster == "redis://b" then (err (other "down"), w) else (ok tt, w)

script-keeps :
    (c k p : String) (ids : List String) (w : World)
    → webhooks_of (script c k p ids w).1 ≡ webhooks_of w
script-keeps c k p ids w = ground arith

abbrev decimal : ℕ → String
decimal n = "0"

activate-owned_example :
    (keep
        (of_others "ann")
        (webhooks_of (handler (context complete) script decimal ("w1" ∷ "w4" ∷ []) start).1)
      ≡ keep (of_others "ann") (webhooks_of start))
    × (map but_active
          (webhooks_of (handler (context complete) script decimal ("w1" ∷ "w4" ∷ []) start).1)
        ≡ map but_active (webhooks_of start))
activate-owned_example =
    activate-owned (context complete) script decimal webhooks_of webhook_table-IsTable script-keeps
      (λ key url w. refl) (λ p w. refl) ("w1" ∷ "w4" ∷ []) start

found_rows :
    (p : Webhook → Bool) (w : World)
    → (map (λ x. x.0) (map with_blockchain (keep p (webhooks_of w))) ≡ keep p (webhooks_of w))
      × (webhooks_of w ≡ webhooks_of w)
found_rows p w = (
  map-map (λ x. x.0) with_blockchain (keep p (webhooks_of w)) ∙ map-id (keep p (webhooks_of w)),
  refl,
)

activate-leaves_none_example :
    Post
      (handler (context complete) script decimal ("w1" ∷ "w4" ∷ []) start)
      (λ _ w'. All (λ r. selected "ann" ("w1" ∷ "w4" ∷ []) r ≡ false) (webhooks_of w'))
activate-leaves_none_example =
    activate-leaves_none (context complete) script decimal webhooks_of webhook_table-IsTable
      script-keeps (λ key url w. refl) found_rows ("w1" ∷ "w4" ∷ []) start

abbrev working_script : String → String → String → List String → M World (Unit {0})
working_script cluster set_key pending_key ids w = (ok tt, w)

abbrev two_shards : List (Nullable String × (ℕ × List String))
two_shards = (val "redis://a", (0, "w1" ∷ [])) ∷ (val "redis://b", (1, "w2" ∷ [])) ∷ []

-- The scripts of both shards, then the update of the second, then that of the first.
run-activates_example :
    All
      (λ r. (r.customer_id == "ann" && r.is_active == 0 && r.id == "w2") ≡ false)
      (webhooks_of
        (run
          (context complete)
          working_script
          decimal
          (0 ∷ 1 ∷ 1 ∷ 0 ∷ [])
          (start_all two_shards)
          start).1)
unfolding run advance_at advance in_array string_eq
run-activates_example =
    run-activates (context complete) working_script decimal webhooks_of webhook_table-IsTable
      (λ c k p ids w. refl) "w2" two_shards (0 ∷ 1 ∷ 1 ∷ 0 ∷ []) start (inr (inl refl))
      (tt, (tt, tt))
