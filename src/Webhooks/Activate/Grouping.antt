-- ===== src/Webhooks/Activate/Grouping.antt =====
-- The nested map of an activation holds each webhook under its own cluster and shard, once.
use block_feed_prototype.Prelude.{
  ℕ, ◌≡◌, ap, ◌∙◌, Bool, ◌&&◌, Option, none, some, List, [], ◌∷◌, ◌++◌, map, keep, String, ◌==◌,
  string_eq, nat_eq, arith, if◌then◌else◌, sym, Option-cases, Bool-cases, inl, inr,
}
use mathlib.Core.List.{append_assoc, append-nil}
use block_feed_prototype.Js.Map
use block_feed_prototype.Js.Map.{Map}
use block_feed_prototype.Db.Schema.{Blockchain, Webhook}
use block_feed_prototype.Webhooks.Activate.{ClusterMap, add_to_shards, add_result, add_results}

abbrev pub or_empty {ℓ} : {A : Type ℓ} → Option (List A) → List A
or_empty none = []
or_empty (some xs) = xs

abbrev pub shard_ids : ℕ → Option (Map ℕ (List String)) → List String
shard_ids shard_id none = []
shard_ids shard_id (some shards) = or_empty (Map.get shard_id shards)

-- The identifiers that the map holds for a shard of a cluster.
abbrev pub webhook_ids : String → ℕ → ClusterMap → List String
webhook_ids url shard_id m = shard_ids shard_id (Map.get url m)

abbrev pub belongs : String → ℕ → Webhook × Blockchain → Bool
belongs url shard_id (r, b) = b.redis_cluster_url == url && r.shard_id == shard_id

shard_ids-add_to_shards :
    (shard_id s : ℕ) (id : String) (shards : Map ℕ (List String))
    → or_empty (Map.get shard_id (add_to_shards s id shards))
      ≡ or_empty (Map.get shard_id shards) ++ (if s == shard_id then id ∷ [] else [])
shard_ids-add_to_shards shard_id s id shards = elim (Option-cases (Map.get s shards)) [
  | inl e ↦ ground (
    arith,
    e,
    Map.get-set shard_id s (id ∷ []) shards,
    append-nil (or_empty (Map.get shard_id shards)),
  )
  | inr (ids, e) ↦ ground (
    arith,
    e,
    Map.get-set shard_id s (ids ++ id ∷ []) shards,
    append-nil (or_empty (Map.get shard_id shards)),
  )
]

webhook_ids-add_result :
    (url : String) (shard_id : ℕ) (m : ClusterMap) (r : Webhook) (b : Blockchain)
    → webhook_ids url shard_id (add_result m (r, b))
      ≡ webhook_ids url shard_id m ++ (if belongs url shard_id (r, b) then r.id ∷ [] else [])
unfolding add_result Map.get
webhook_ids-add_result url shard_id m r b = elim (Option-cases (Map.get b.redis_cluster_url m)) [
  | inl e ↦ ground (
    arith,
    e,
    Map.get-set url b.redis_cluster_url ((r.shard_id, r.id ∷ []) ∷ []) m,
    append-nil (webhook_ids url shard_id m),
  )
  | inr (shards, e) ↦ ground (
    arith,
    e,
    Map.get-set url b.redis_cluster_url (add_to_shards r.shard_id r.id shards) m,
    shard_ids-add_to_shards shard_id r.shard_id r.id shards,
    append-nil (webhook_ids url shard_id m),
  )
]

add_results-webhook_ids :
    (url : String) (shard_id : ℕ) (m : ClusterMap) (results : List (Webhook × Blockchain))
    → webhook_ids url shard_id (add_results m results)
      ≡ webhook_ids url shard_id m ++ map (λ r. r.0.id) (keep (belongs url shard_id) results)
unfolding add_results
add_results-webhook_ids url shard_id m [] = sym (append-nil (webhook_ids url shard_id m))
add_results-webhook_ids url shard_id m ((r, b) ∷ results) =
    add_results-webhook_ids url shard_id (add_result m (r, b)) results
    ∙ ap (λ ids. ids ++ map (λ r. r.0.id) (keep (belongs url shard_id) results))
        (webhook_ids-add_result url shard_id m r b)
    ∙ rest
  where
    rest :
        (webhook_ids url shard_id m ++ (if belongs url shard_id (r, b) then r.id ∷ [] else []))
          ++ map (λ r. r.0.id) (keep (belongs url shard_id) results)
        ≡ webhook_ids url shard_id m
          ++ map (λ r. r.0.id) (keep (belongs url shard_id) ((r, b) ∷ results))
    rest = elim (Bool-cases (belongs url shard_id (r, b))) [
      | inl e ↦ rw e (
          append_assoc (webhook_ids url shard_id m) (r.id ∷ [])
            (map (λ x. x.0.id) (keep (belongs url shard_id) results)))
      | inr e ↦ rw (e, append-nil)
    ]

-- For every cluster and shard the grouping holds the identifiers of exactly the webhooks found there,
-- in the order of the results: none is lost, moved or repeated.
pub grouped :
    (url : String) (shard_id : ℕ) (results : List (Webhook × Blockchain))
    → webhook_ids url shard_id (add_results [] results)
      ≡ map (λ r. r.0.id) (keep (belongs url shard_id) results)
unfolding Map.get
grouped url shard_id results = add_results-webhook_ids url shard_id [] results
