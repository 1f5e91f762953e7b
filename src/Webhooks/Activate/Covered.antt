-- ===== src/Webhooks/Activate/Covered.antt =====
-- Which webhooks an activation asks for, and why those that its query finds are all of them.
use block_feed_prototype.Prelude.{
  ℕ, ◌≡◌, refl, sym, ap, ◌∙◌, Bool, true, false, not, ◌&&◌, ◌||◌, List, [], ◌∷◌, map, keep, String,
  ◌==◌, string_eq, nat_eq, arith, All, in_array, Bool-cases, inl, inr, eq_refl, subst,
}
use block_feed_prototype.Db.Schema.{Blockchain, Webhook}
use block_feed_prototype.Webhooks.Activate.Grouping.{belongs}
use block_feed_prototype.Webhooks.Activate.Settled.{Stable, Every, done}

-- The rows that an activation asks for.
abbrev pub selected : String → List String → Webhook → Bool
selected user_id ids r = r.customer_id == user_id && r.is_active == 0 && in_array r.id ids

-- A webhook that is asked for, and still inactive, is among those found.
abbrev pub covered : String → List String → List String → Webhook → Bool
covered user_id ids found r = not (selected user_id ids r) || in_array r.id found

pub covered-Stable :
    (user_id : String) (ids found : List String) → Stable (covered user_id ids found)
covered-Stable user_id ids found r h = ground arith

covered-head :
    (user_id : String) (ids found : List String) (id : String) (r : Webhook)
    → covered user_id ids found r ≡ true
    → covered user_id ids (id ∷ found) r ≡ true
unfolding in_array
covered-head user_id ids found id r h = ground arith

covered-more :
    (user_id : String) (ids found : List String) (id : String) (rows : List Webhook)
    → Every (covered user_id ids found) rows
    → Every (covered user_id ids (id ∷ found)) rows
covered-more user_id ids found id [] h = tt
covered-more user_id ids found id (r ∷ rows) h =
    (covered-head user_id ids found id r h.0, covered-more user_id ids found id rows h.1)

covered-itself :
    (user_id : String) (ids : List String) (r : Webhook) (found : List String)
    → covered user_id ids (r.id ∷ found) r ≡ true
unfolding in_array
covered-itself user_id ids r found = ground (arith, eq_refl r.id)

keep-first :
    (p : Webhook → Bool) (r : Webhook) (rows : List Webhook)
    → p r ≡ true
    → keep p (r ∷ rows) ≡ r ∷ keep p rows
keep-first p r rows e = rw e refl

keep-rest :
    (p : Webhook → Bool) (r : Webhook) (rows : List Webhook)
    → p r ≡ false
    → keep p (r ∷ rows) ≡ keep p rows
keep-rest p r rows e = rw e refl

pub covered-keep :
    (user_id : String) (ids : List String) (rows : List Webhook) (found : List String)
    → found ≡ map (λ r. r.id) (keep (selected user_id ids) rows)
    → Every (covered user_id ids found) rows
covered-keep user_id ids [] found h = tt
covered-keep user_id ids (r ∷ rows) found h = elim (Bool-cases (selected user_id ids r)) [
  | inl e ↦
      subst (λ found. Every (covered user_id ids found) (r ∷ rows))
        (sym (h ∙ ap (map (λ r. r.id)) (keep-first (selected user_id ids) r rows e)))
        (
          covered-itself user_id ids r _,
          covered-more user_id ids _ r.id rows (covered-keep user_id ids rows _ refl),
        )
  | inr e ↦ (
    ground arith,
    covered-keep user_id ids rows found
        (h ∙ ap (map (λ r. r.id)) (keep-rest (selected user_id ids) r rows e)),
  )
]

pub none_asked_for :
    (user_id : String) (rows : List Webhook) → All (λ r. selected user_id [] r ≡ false) rows
unfolding in_array
none_asked_for user_id [] = tt
none_asked_for user_id (r ∷ rows) = (ground arith, none_asked_for user_id rows)

unselected-row :
    (user_id : String) (ids found : List String) (r : Webhook)
    → covered user_id ids found r ≡ true
    → (in_array r.id found ≡ true → done user_id r.id r ≡ true)
    → selected user_id ids r ≡ false
unselected-row user_id ids found r h d = elim (Bool-cases (in_array r.id found)) [
  | inl e ↦ ground (arith, d e, eq_refl r.id)
  | inr e ↦ ground arith
]

pub unselected :
    (user_id : String) (ids found : List String) (rows : List Webhook)
    → Every (covered user_id ids found) rows
    → ((id : String) → in_array id found ≡ true → Every (done user_id id) rows)
    → All (λ r. selected user_id ids r ≡ false) rows
unselected user_id ids found [] h d = tt
unselected user_id ids found (r ∷ rows) h d = (
  unselected-row user_id ids found r h.0 (λ i. (d r.id i).0),
  unselected user_id ids found rows h.1 (λ id i. (d id i).1),
)

kept-later :
    (id url : String) (shard_id : ℕ) (x : Webhook × Blockchain)
    (results : List (Webhook × Blockchain))
    → in_array id (map (λ x. x.0.id) (keep (belongs url shard_id) results)) ≡ true
    → in_array id (map (λ x. x.0.id) (keep (belongs url shard_id) (x ∷ results))) ≡ true
unfolding in_array
kept-later id url shard_id x results h = elim (Bool-cases (belongs url shard_id x)) [
  | inl e ↦ rw e (ground arith)
  | inr e ↦ rw e h
]

-- A webhook that was found has a cluster and a shard.
pub group_of :
    (id : String) (results : List (Webhook × Blockchain))
    → in_array id (map (λ x. x.0.id) results) ≡ true
    → (url : String) × (shard_id : ℕ) × (in_array id
          (map (λ x. x.0.id) (keep (belongs url shard_id) results))
        ≡ true)
unfolding in_array
group_of id [] h = cc
group_of id ((r, b) ∷ results) h = elim (Bool-cases (id == r.id)) [
  | inl e ↦ (
    b.redis_cluster_url,
    r.shard_id,
    ground (arith, eq_refl b.redis_cluster_url, eq_refl r.shard_id),
  )
  | inr e ↦
      let (url, shard_id, found) = group_of id results (ground arith) in
      (url, shard_id, kept-later id url shard_id (r, b) results found)
]
