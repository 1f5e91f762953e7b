-- ===== src/Db/Memory.antt =====
-- A table kept in memory as a list of rows: it satisfies what the model assumes of the database.
use block_feed_prototype.Prelude.{
  ℕ, ◌≡◌, refl, sym, ap, ◌∙◌, Bool, true, false, Option, none, some, List, [], ◌∷◌, ◌++◌, inl, inr,
  ◌⊎◌, take, length, keep, All, if◌then◌else◌, Bool-cases,
}
use block_feed_prototype.Promise.{M, OnOk, ok, err, other}
use block_feed_prototype.Db.Table.{
  Table, IsTable, In, Distinct, IsOrdered, Arranges, Found, clashes_with, update_rows, delete_rows,
  insert_ignore_row,
}
use block_feed_prototype.Db.Rows.{In-All, In-keep}
use block_feed_prototype.Db.Order.{
  IsOrdered-split, In-append, append-In_left, append-In_right, Apart, All-of_In,
}

module _ {Row : Type 0} where
  unfoldable pub find : (Row → Bool) → List Row → Option Row
  find p [] = none
  find p (r ∷ rows) = if p r then some r else find p rows

  unfoldable pub insert_in : (Row → Row → Bool) → Row → List Row → List Row
  insert_in before r [] = r ∷ []
  insert_in before r (x ∷ xs) = if before r x then r ∷ x ∷ xs else x ∷ insert_in before r xs

  unfoldable pub sort : (Row → Row → Bool) → List Row → List Row
  unfolding insert_in
  sort before [] = []
  sort before (r ∷ rows) = insert_in before r (sort before rows)

  find-Found : (p : Row → Bool) (rows : List Row) → Found p rows (find p rows)
  unfolding find
  find-Found p [] = tt
  find-Found p (r ∷ rows) = elim (Bool-cases (p r)) [
    | inl e ↦ rw e (inl refl, e)
    | inr e ↦ rw e (later (find p rows) (find-Found p rows) e)
  ]
    where
      later : (o : Option Row) → Found p rows o → p r ≡ false → Found p (r ∷ rows) o
      later none h e = (e, h)
      later (some x) h e = (inr h.0, h.1)

  keep-All : (p : Row → Bool) (rows : List Row) → All (λ r. In r rows × (p r ≡ true)) (keep p rows)
  keep-All p rows =
      All-of_In (λ r. In r rows × (p r ≡ true)) (keep p rows) (λ r i. In-keep p r rows i)

module _ {W Row : Type 0} (view : W → List Row) (put : List Row → W → W)
    (clash : Row → Row → Bool) where
  abbrev insert_row : Row → M W ℕ
  insert_row r w =
      if clashes_with clash r (view w)
      then (err (other "duplicate entry"), w)
      else (ok 1, put (view w ++ r ∷ []) w)

  abbrev pub memory : Table W Row
  memory = record {
    find_first = λ p w. (ok (find p (view w)), w);
    find_many = λ p w. (ok (keep p (view w)), w);
    find_page = λ p before n w. (ok (take n (sort before (keep p (view w)))), w);
    select_for_update = λ p w. (ok (keep p (view w)), w);
    insert = insert_row;
    insert_ignore = λ r w. (ok 1, put (insert_ignore_row clash r (view w)) w);
    update = λ f p w. (ok (length (keep p (view w))), put (update_rows f p (view w)) w);
    delete = λ p w. (ok (length (keep p (view w))), put (delete_rows p (view w)) w);
  }

module _ {Row : Type 0} (before : Row → Row → Bool) where
  -- A row goes between what stands before it and what stands after it.
  insert_in-split :
      (r : Row) (pre post : List Row)
      → IsOrdered before (pre ++ r ∷ post)
      → insert_in before r (pre ++ post) ≡ pre ++ r ∷ post
  unfolding insert_in
  insert_in-split r [] [] h = refl
  insert_in-split r [] (x ∷ post) h = rw h.0.0.0 refl
  insert_in-split r (x ∷ pre) post h =
      rw
        (In-All (λ y. (before x y ≡ true) × (before y x ≡ false)) (pre ++ r ∷ post) h.0
          (append-In_right r pre (r ∷ post) (inl refl))).1
        (ap (◌∷◌ x) (insert_in-split r pre post h.1))

  split_at :
      (r : Row) (s : List Row)
      → In r s
      → (pre : List Row) × (post : List Row) × (s ≡ pre ++ r ∷ post)
  split_at r [] i = absurd i
  split_at r (x ∷ s) (inl e) = ([], s, ap (λ y. y ∷ s) (sym e))
  split_at r (x ∷ s) (inr i) = let (pre, post, e) = split_at r s i in (x ∷ pre, post, ap (◌∷◌ x) e)

  nothing : (p : Row → Bool) (s : List Row) → Arranges before p [] s → [] ≡ s
  nothing p [] a = refl
  nothing p (x ∷ s) a = absurd ((a.1 x).0 (inl refl)).0

  IsOrdered-skip :
      (r : Row) (pre post : List Row)
      → IsOrdered before (pre ++ r ∷ post)
      → IsOrdered before (pre ++ post)
  IsOrdered-skip r [] post h = h.1
  IsOrdered-skip r (x ∷ pre) post h = (skip pre h.0, IsOrdered-skip r pre post h.1)
    where
      skip :
          (pre : List Row)
          → All (Apart before x) (pre ++ r ∷ post)
          → All (Apart before x) (pre ++ post)
      skip [] a = a.1
      skip (y ∷ pre) a = (a.0, skip pre a.1)

  module _ (p : Row → Bool) (r : Row) (rows pre post : List Row) (fresh : ¬ In r rows)
      (a : Arranges before p (r ∷ rows) (pre ++ r ∷ post)) where
    parts :
        IsOrdered before pre
        × IsOrdered before (r ∷ post)
        × All (λ x. All (Apart before x) (r ∷ post)) pre
    parts = IsOrdered-split before pre (r ∷ post) a.0

    elsewhere : (x : Row) → In x pre ⊎ In x post → ¬ (x ≡ r)
    elsewhere x (inl i) same =
        let (t, f) = (In-All (λ x. All (Apart before x) (r ∷ post)) pre parts.2 i).0 in
        cc (t, f, same)
    elsewhere x (inr i) same =
        let (t, f) = In-All (Apart before r) post parts.1.0 i in cc (t, f, same)

    in_rest : (x : Row) → In x pre ⊎ In x post → (In x rows) × (p x ≡ true)
    in_rest x i =
        let k : In x (pre ++ r ∷ post) = elim i [
          | inl j ↦ append-In_left x pre (r ∷ post) j
          | inr j ↦ append-In_right x pre (r ∷ post) (inr j)
        ] in
        elim ((a.1 x).0 k).0 [
          | inl same ↦ absurd (elsewhere x i same)
          | inr j ↦ (j, ((a.1 x).0 k).1)
        ]

    in_parts : (x : Row) → In x rows → p x ≡ true → In x (pre ++ post)
    in_parts x i e = elim (In-append x pre (r ∷ post) ((a.1 x).1 (inr i, e))) [
      | inl j ↦ append-In_left x pre post j
      | inr (inl same) ↦ absurd (fresh (rw (← same) i))
      | inr (inr j) ↦ append-In_right x pre post j
    ]

    Arranges-skip : Arranges before p rows (pre ++ post)
    Arranges-skip = (
      IsOrdered-skip r pre post a.0,
      λ x. (λ i. in_rest x (In-append x pre post i), λ h. in_parts x h.0 h.1),
    )

  -- An arrangement of the rows that pass is what sorting gives.
  pub sort-arranged :
      (p : Row → Bool) (rows s : List Row)
      → Distinct rows
      → Arranges before p rows s
      → sort before (keep p rows) ≡ s
  unfolding sort
  sort-arranged p [] s d a = nothing p s a
  sort-arranged p (r ∷ rows) s d a = elim (Bool-cases (p r)) [
    | inl e ↦
        let (pre, post, q) = split_at r s ((a.1 r).1 (inl refl, e)) in
        let b : Arranges before p (r ∷ rows) (pre ++ r ∷ post) = rw (← q) a in
        rw e (
          ap (insert_in before r)
            (sort-arranged p rows (pre ++ post) d.1 (Arranges-skip p r rows pre post d.0 b))
          ∙ insert_in-split r pre post b.0
          ∙ sym q)
    | inr e ↦ rw e (
        sort-arranged p rows s d.1
          (a.0, λ x. (λ i. passing x e ((a.1 x).0 i), λ h. (a.1 x).1 (inr h.0, h.1))))
  ]
    where
      passing : (x : Row) → p r ≡ false → In x (r ∷ rows) × (p x ≡ true) → In x rows × (p x ≡ true)
      passing x f (inl same, h) = cc (f, h, ap p same)
      passing x f (inr i, h) = (i, h)

module _ {W Row : Type 0} (view : W → List Row) (put : List Row → W → W) (clash : Row → Row → Bool)
    (view-put : (rows : List Row) (w : W) → view (put rows w) ≡ rows) where
  inserted :
      (r : Row) (w : W)
      → OnOk (insert_row view put clash r w).0 (λ n.
        (n ≡ 1)
        × (view (insert_row view put clash r w).1 ≡ view w ++ r ∷ [])
        × (clashes_with clash r (view w) ≡ false))
  inserted r w = elim (Bool-cases (clashes_with clash r (view w))) [
    | inl e ↦ rw e tt
    | inr e ↦ rw e (refl, view-put (view w ++ r ∷ []) w, refl)
  ]

  pub memory-IsTable : IsTable (memory view put clash) view clash
  memory-IsTable = record {
    find_first_keeps = λ p w. refl;
    find_first_value = λ p w. find-Found p (view w);
    find_many_keeps = λ p w. refl;
    find_many_value = λ p w. refl;
    find_page_keeps = λ p before n w. refl;
    find_page_value = λ p before n w d s a. ap (take n) (sort-arranged before p (view w) s d a);
    select_for_update_keeps = λ p w. refl;
    select_for_update_value = λ p w. keep-All p (view w);
    insert_value = λ r w. inserted r w;
    insert_ignore_value = λ r w. view-put (insert_ignore_row clash r (view w)) w;
    update_value = λ f p w. (refl, view-put (update_rows f p (view w)) w);
    update_failed = λ f p w h. cc h.1;
    delete_value = λ p w. (refl, view-put (delete_rows p (view w)) w);
  }
