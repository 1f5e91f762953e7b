-- ===== src/Dashboard/Table/HeadBox.antt =====
-- The box in the head of the table, against the boxes of the rows.
use block_feed_prototype.Prelude.{
  ℕ, suc, ◌≡◌, refl, ap, ◌∙◌, Bool, true, false, not, ◌&&◌, List, [], ◌∷◌, String, length, All,
  ◌==◌, nat_eq, string_eq, eq_refl, in_array, if◌then◌else◌, arith, Bool-cases, inl, inr,
}
use block_feed_prototype.Js.Map.{keys}
use block_feed_prototype.Dashboard.Table.{
  Checkbox, Checkboxes, checked, check_all, check_one, is_everything_checked,
}

-- The boxes of the given keys set one after the other.
abbrev pub check_each : List String → Bool → Checkboxes → Checkboxes
check_each [] is_checked selected = selected
check_each (k ∷ ks) is_checked selected = check_each ks is_checked (check_one k is_checked selected)

set_box : Bool → Checkbox → Checkbox
set_box is_checked v = record { webhook = v.webhook; is_checked = is_checked }

same : (b : Bool) (v : Checkbox) → (if b then v else v) ≡ v
same true v = refl
same false v = refl

check_each-nil : (ks : List String) (is_checked : Bool) → check_each ks is_checked [] ≡ []
unfolding check_one
check_each-nil [] is_checked = refl
check_each-nil (k ∷ ks) is_checked = check_each-nil ks is_checked

check_each-cons :
    (ks : List String) (is_checked : Bool) (k : String) (v : Checkbox) (selected : Checkboxes)
    → check_each ks is_checked ((k, v) ∷ selected)
      ≡ (k, if in_array k ks then set_box is_checked v else v) ∷ check_each ks is_checked selected
unfolding check_one in_array set_box
check_each-cons [] is_checked k v selected = refl
check_each-cons (j ∷ ks) is_checked k v selected = elim (Bool-cases (k == j)) [
  | inr f ↦ rw f (check_each-cons ks is_checked k v (check_one j is_checked selected))
  | inl t ↦ rw t (
      check_each-cons ks is_checked k (set_box is_checked v) (check_one j is_checked selected)
      ∙ ap (λ u. (k, u) ∷ check_each ks is_checked (check_one j is_checked selected))
          (same (in_array k ks) (set_box is_checked v)))
]

check_each-check_all :
    (ks : List String) (is_checked : Bool) (selected : Checkboxes)
    → All (λ k. in_array k ks ≡ true) (keys selected)
    → check_each ks is_checked selected ≡ check_all is_checked selected
unfolding check_all set_box
check_each-check_all ks is_checked [] h = check_each-nil ks is_checked
check_each-check_all ks is_checked ((k, v) ∷ selected) h =
    check_each-cons ks is_checked k v selected
    ∙ rw h.0 (ap (◌∷◌ (k, set_box is_checked v)) (check_each-check_all ks is_checked selected h.1))

in_more :
    (j : String) (ks xs : List String)
    → All (λ k. in_array k ks ≡ true) xs
    → All (λ k. in_array k (j ∷ ks) ≡ true) xs
unfolding in_array
in_more j ks [] h = tt
in_more j ks (x ∷ xs) h = (ground (arith, h.0), in_more j ks xs h.1)

in_own : (ks : List String) → All (λ k. in_array k ks ≡ true) ks
unfolding in_array
in_own [] = tt
in_own (k ∷ ks) = (ground (arith, eq_refl k), in_more k ks ks (in_own ks))

length-checked-check_all :
    (is_checked : Bool) (selected : Checkboxes)
    → length (checked (check_all is_checked selected)) ≡ (if is_checked then length selected else 0)
unfolding check_all
length-checked-check_all true [] = refl
length-checked-check_all false [] = refl
length-checked-check_all true ((k, v) ∷ selected) = ap suc (length-checked-check_all true selected)
length-checked-check_all false ((k, v) ∷ selected) = length-checked-check_all false selected

length-check_all :
    (is_checked : Bool) (selected : Checkboxes)
    → length (check_all is_checked selected) ≡ length selected
unfolding check_all
length-check_all is_checked [] = refl
length-check_all is_checked ((k, v) ∷ selected) = ap suc (length-check_all is_checked selected)

everything_checked :
    (is_checked : Bool) (n : ℕ)
    → (not (n == 0) && (if is_checked then n else 0) == n) ≡ (is_checked && not (n == 0))
everything_checked true n = ground arith
everything_checked false n = ground arith

-- Setting every box of the table, one after the other, does the same as setting the box in its head,
-- which then shows as checked exactly if the boxes were checked and there is one at all.
pub head_box :
    (is_checked : Bool) (selected : Checkboxes)
    → (check_each (keys selected) is_checked selected ≡ check_all is_checked selected)
      × (is_everything_checked (check_all is_checked selected)
          ≡ (is_checked && not (length selected == 0)))
unfolding is_everything_checked
head_box is_checked selected = (
  check_each-check_all (keys selected) is_checked selected (in_own (keys selected)),
  rw (length-check_all is_checked selected, length-checked-check_all is_checked selected)
      (everything_checked is_checked (length selected)),
)
