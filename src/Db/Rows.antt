-- ===== src/Db/Rows.antt =====
-- Lists of rows under the effects of the queries: what an update or a deletion leaves alone.
use block_feed_prototype.Prelude.{
  length, ◌+◌, ◌≡◌, refl, Bool, true, false, List, [], ◌∷◌, ◌++◌, map, inl, inr, All, keep, arith,
  Bool-cases,
}
use block_feed_prototype.Db.Table.{In, update_rows, delete_rows, clashes_with}

module _ {Row : Type 0} where
  pub In-All : (P : Row → Type 0) {r : Row} (rows : List Row) → All P rows → In r rows → P r
  In-All P [] h i = absurd i
  In-All P (x ∷ rows) h (inl e) = rw e h.0
  In-All P (x ∷ rows) h (inr i) = In-All P rows h.1 i

  keep_cons_In :
      (p : Row → Bool) {r x : Row} (rows : List Row)
      → (In r (keep p rows) → In r rows × (p r ≡ true))
      → p x ≡ true
      → In r (x ∷ keep p rows)
      → In r (x ∷ rows) × (p r ≡ true)
  keep_cons_In p rows ih e (inl same) = (inl same, rw same e)
  keep_cons_In p rows ih e (inr later) = let (i, q) = ih later in (inr i, q)

  -- A row that a filter keeps is a row of the list that passes.
  pub In-keep :
      (p : Row → Bool) (r : Row) (rows : List Row) → In r (keep p rows) → In r rows × (p r ≡ true)
  In-keep p r [] h = absurd h
  In-keep p r (x ∷ rows) h = elim (Bool-cases (p x)) [
    | inl passes ↦ keep_cons_In p {x = x} rows (In-keep p r rows) passes (rw passes at h)
    | inr fails ↦ let (i, q) = In-keep p r rows (rw fails at h) in (inr i, q)
  ]

  pub keep-append : (p : Row → Bool) (xs ys : List Row) → keep p (xs ++ ys) ≡ keep p xs ++ keep p ys
  keep-append p [] ys = refl
  keep-append p (x ∷ xs) ys = ground (arith, keep-append p xs ys)

  -- An update whose rows all lie outside `q`, before and after, does not change the rows in `q`.
  pub keep-update_rows :
      (q p : Row → Bool) (f : Row → Row)
      → ((r : Row) → p r ≡ true → (q r ≡ false) × (q (f r) ≡ false))
      → (rows : List Row) → keep q (update_rows f p rows) ≡ keep q rows
  keep-update_rows q p f h [] = refl
  keep-update_rows q p f h (r ∷ rows) = ground (arith, keep-update_rows q p f h rows, h r)

  -- A column that the update does not set keeps its value in every row, in order.
  pub map-update_rows :
      {X : Type 0} (column : Row → X) (p : Row → Bool) (f : Row → Row)
      → ((r : Row) → column (f r) ≡ column r)
      → (rows : List Row) → map column (update_rows f p rows) ≡ map column rows
  map-update_rows column p f h [] = refl
  map-update_rows column p f h (r ∷ rows) = ground (arith, map-update_rows column p f h rows, h r)

  pub keep-delete_rows :
      (q p : Row → Bool)
      → ((r : Row) → p r ≡ true → q r ≡ false)
      → (rows : List Row) → keep q (delete_rows p rows) ≡ keep q rows
  keep-delete_rows q p h [] = refl
  keep-delete_rows q p h (r ∷ rows) = ground (arith, keep-delete_rows q p h rows, h r)

  pub delete_rows-All :
      (p : Row → Bool) (rows : List Row) → All (λ r. p r ≡ false) (delete_rows p rows)
  delete_rows-All p [] = tt
  delete_rows-All p (r ∷ rows) = elim (Bool-cases (p r)) [
    | inl e ↦ rw e (delete_rows-All p rows)
    | inr e ↦ rw e (e, delete_rows-All p rows)
  ]

  pub clashes_with-append :
      (clash : Row → Row → Bool) (r s : Row) (rows : List Row)
      → clash r s ≡ false
      → clashes_with clash r (rows ++ s ∷ []) ≡ clashes_with clash r rows
  clashes_with-append clash r s [] h = rw h
  clashes_with-append clash r s (x ∷ rows) h = ground (arith, clashes_with-append clash r s rows h)

  -- A deletion takes out as many rows as pass.
  pub length-delete_rows :
      (p : Row → Bool) (rows : List Row)
      → length (keep p rows) + length (delete_rows p rows) ≡ length rows
  length-delete_rows p [] = omega arith
  length-delete_rows p (r ∷ rows) = elim (Bool-cases (p r)) [
    | inl e ↦ rw e (omega (arith, length-delete_rows p rows))
    | inr e ↦ rw e (omega (arith, length-delete_rows p rows))
  ]
