-- ===== src/Dashboard/Table/Checked.antt =====
-- The boxes of the table that are checked, and their identifiers.
use block_feed_prototype.Prelude.{
  suc, ◌≤◌, ◌≡◌, refl, sym, ap, subst, Bool, true, false, not, List, [], ◌∷◌, String, keep, every,
  length, All, ◌==◌, nat_eq, string_eq, eq_of_test, ◌||◌, arith, Bool-cases, in_array, eq_refl, inl,
  inr,
}
use block_feed_prototype.Js.Map.{values}
use block_feed_prototype.Db.Schema.{Webhook}
use block_feed_prototype.Db.Table.{In}
use block_feed_prototype.Dashboard.Table.{Checkbox, Checkboxes, checked, ids_of, inactive_of}
use block_feed_prototype.Dashboard.Table.Selection.{entries_of, boxes_for}

All-map :
    (P Q : Checkbox → Type 0) (vs : List Checkbox)
    → ((v : Checkbox) → P v → Q v)
    → All P vs
    → All Q vs
All-map P Q [] f h = tt
All-map P Q (v ∷ vs) f h = (f v h.0, All-map P Q vs f h.1)

head_eq : {x y : String × Webhook} {xs ys : List (String × Webhook)} → x ∷ xs ≡ y ∷ ys → x ≡ y
head_eq e = cc

tail_eq : {x y : String × Webhook} {xs ys : List (String × Webhook)} → x ∷ xs ≡ y ∷ ys → xs ≡ ys
tail_eq e = cc

-- What holds of every webhook shown holds of every one that is checked.
pub checked-All :
    (P : Webhook → Type 0) (ws : List Webhook) (selected : Checkboxes)
    → entries_of selected ≡ boxes_for ws
    → All P ws
    → All (λ (v : Checkbox). P v.webhook) (checked selected)
checked-All P [] [] e h = tt
checked-All P (w ∷ ws) [] e h = cc
checked-All P [] (x ∷ selected) e h = cc
checked-All P (w ∷ ws) ((k, v) ∷ selected) e h =
    let rest = checked-All P ws selected (tail_eq e) h.1 in
    let same : v.webhook ≡ w = ap (λ x. x.1) (head_eq e) in
    elim (Bool-cases v.is_checked) [ inl t ↦ rw t (rw same h.0, rest) | inr f ↦ rw f rest ]

pub length-checked_le :
    (selected : Checkboxes) → length (checked selected) ≤ length (entries_of selected)
length-checked_le [] = omega arith
length-checked_le ((k, v) ∷ selected) = ground (arith, length-checked_le selected)

pub length-boxes_for : (ws : List Webhook) → length (boxes_for ws) ≡ length ws
length-boxes_for [] = refl
length-boxes_for (w ∷ ws) = ap suc (length-boxes_for ws)

pub length-ids_of : (vs : List Checkbox) → length (ids_of vs) ≡ length vs
length-ids_of [] = refl
length-ids_of (v ∷ vs) = ap suc (length-ids_of vs)

pub every-ids_of :
    (test : String → Bool) (vs : List Checkbox)
    → All (λ (v : Checkbox). test v.webhook.id ≡ true) vs
    → every test (ids_of vs) ≡ true
every-ids_of test [] h = refl
every-ids_of test (v ∷ vs) h = rw (h.0, every-ids_of test vs h.1) refl

-- A box of the table that is checked, for a webhook that is shown.
pub record IsSent (boxes : List Checkbox) (shown : List Webhook) (P : Checkbox → Type 0)
    (v : Checkbox) : Type 0 where
  pub held : In v boxes
  pub is_checked : v.is_checked ≡ true
  pub is_shown : In v.webhook shown
  pub target : P v

length-keep_le : (p : Checkbox → Bool) (vs : List Checkbox) → length (keep p vs) ≤ length vs
length-keep_le p [] = omega arith
length-keep_le p (v ∷ vs) = ground (arith, length-keep_le p vs)

keep-All :
    (p : Checkbox → Bool) (vs : List Checkbox)
    → length (keep p vs) ≡ length vs
    → All (λ v. p v ≡ true) vs
keep-All p [] e = tt
keep-All p (v ∷ vs) e = elim (Bool-cases (p v)) [
  | inl t ↦ (t, keep-All p vs (ground arith))
  | inr f ↦ absurd (ground (arith, length-keep_le p vs))
]

keep-passes : (p : Checkbox → Bool) (vs : List Checkbox) → All (λ v. p v ≡ true) (keep p vs)
keep-passes p [] = tt
keep-passes p (v ∷ vs) = elim (Bool-cases (p v)) [
  | inl t ↦ rw t (t, keep-passes p vs)
  | inr f ↦ rw f (keep-passes p vs)
]

pub checked-IsChecked : (selected : Checkboxes) → All (λ v. v.is_checked ≡ true) (checked selected)
checked-IsChecked selected = keep-passes (λ v. v.is_checked) (values selected)

pub All-inactive :
    (vs : List Checkbox)
    → (length (inactive_of vs) == length vs) ≡ true
    → All (λ (v : Checkbox). v.webhook.is_active ≡ 0) vs
All-inactive vs e =
    All-map (λ v. (v.webhook.is_active == 0) ≡ true) (λ v. v.webhook.is_active ≡ 0) vs
      (λ v t. eq_of_test v.webhook.is_active 0 t)
      (keep-All (λ v. v.webhook.is_active == 0) vs (eq_of_test _ _ e))

pub ids_of-All :
    (Q : Checkbox → Type 0) (vs : List Checkbox)
    → All Q vs
    → All (λ id. (v : Checkbox) × (v.webhook.id ≡ id) × Q v) (ids_of vs)
ids_of-All Q [] h = tt
ids_of-All Q (v ∷ vs) h = ((v, refl, h.0), ids_of-All Q vs h.1)

pub keep-held :
    (p : Checkbox → Bool) (vs : List Checkbox) → All (λ (v : Checkbox). In v vs) (keep p vs)
keep-held p [] = tt
keep-held p (v ∷ vs) =
    let later =
      All-map (λ x. In x vs) (λ x. In x (v ∷ vs)) (keep p vs) (λ x i. inr i) (keep-held p vs) in
    elim (Bool-cases (p v)) [ inl t ↦ rw t (inl refl, later) | inr f ↦ rw f later ]

-- With more identifiers no box that is checked is missing either.
complete-more :
    (id : String) (ids : List String) (vs : List Checkbox)
    → All (λ (v : Checkbox). (not v.is_checked || in_array v.webhook.id ids) ≡ true) vs
    → All (λ (v : Checkbox). (not v.is_checked || in_array v.webhook.id (id ∷ ids)) ≡ true) vs
unfolding in_array
complete-more id ids [] h = tt
complete-more id ids (v ∷ vs) h = (ground arith, complete-more id ids vs h.1)

in_array-first : (id : String) (ids : List String) → in_array id (id ∷ ids) ≡ true
unfolding in_array
in_array-first id ids = ground (arith, eq_refl id)

-- The boxes that are checked have their identifiers among these.
abbrev IsComplete : List String → List Checkbox → Type 0
IsComplete ids vs =
    All (λ (v : Checkbox). (not v.is_checked || in_array v.webhook.id ids) ≡ true) vs

keep-first :
    (v : Checkbox) (vs : List Checkbox)
    → v.is_checked ≡ true
    → ids_of (keep (λ v. v.is_checked) (v ∷ vs))
      ≡ v.webhook.id ∷ ids_of (keep (λ v. v.is_checked) vs)
keep-first v vs t = rw t refl

keep-rest :
    (v : Checkbox) (vs : List Checkbox)
    → v.is_checked ≡ false
    → ids_of (keep (λ v. v.is_checked) (v ∷ vs)) ≡ ids_of (keep (λ v. v.is_checked) vs)
keep-rest v vs f = rw f refl

pub checked-IsComplete : (vs : List Checkbox) → IsComplete (ids_of (keep (λ v. v.is_checked) vs)) vs
checked-IsComplete [] = tt
checked-IsComplete (v ∷ vs) =
    let ids = ids_of (keep (λ v. v.is_checked) vs) in
    elim (Bool-cases v.is_checked) [
      | inl t ↦
          subst (λ x. IsComplete x (v ∷ vs)) (sym (keep-first v vs t))
            (
              ground (arith, in_array-first v.webhook.id ids),
              complete-more v.webhook.id ids vs (checked-IsComplete vs),
            )
      | inr f ↦
          subst (λ x. IsComplete x (v ∷ vs)) (sym (keep-rest v vs f))
            (ground arith, checked-IsComplete vs)
    ]

pub zip-IsSent :
    (P : Checkbox → Type 0) (boxes : List Checkbox) (shown : List Webhook) (vs : List Checkbox)
    → All (λ (v : Checkbox). In v boxes) vs
    → All (λ (v : Checkbox). v.is_checked ≡ true) vs
    → All (λ (v : Checkbox). In v.webhook shown) vs
    → All P vs
    → All (IsSent boxes shown P) vs
zip-IsSent P boxes shown [] h c i t = tt
zip-IsSent P boxes shown (v ∷ vs) h c i t = (
  record { held = h.0; is_checked = c.0; is_shown = i.0; target = t.0 },
  zip-IsSent P boxes shown vs h.1 c.1 i.1 t.1,
)
