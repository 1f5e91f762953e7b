-- ===== src/Db/Order.antt =====
-- Parts of an arrangement: what stands behind a row and what stands before it.
use mathlib.Core.List.{reverse-cons}
use block_feed_prototype.Prelude.{
  ◌≡◌, refl, Bool, true, false, ◌&&◌, List, [], ◌∷◌, ◌++◌, reverse, ◌⊎◌, inl, inr, ◌↔◌, All,
  All-append, arith, ap, fun_ext,
}
use block_feed_prototype.Db.Table.{In, IsOrdered, Arranges}
use block_feed_prototype.Db.Rows.{In-All}

module _ {Row : Type 0} where
  pub In-append : (r : Row) (xs ys : List Row) → In r (xs ++ ys) → In r xs ⊎ In r ys
  In-append r [] ys i = inr i
  In-append r (x ∷ xs) ys (inl e) = inl (inl e)
  In-append r (x ∷ xs) ys (inr i) = elim (In-append r xs ys i) [
    | inl j ↦ inl (inr j)
    | inr j ↦ inr j
  ]

  pub append-In_left : (r : Row) (xs ys : List Row) → In r xs → In r (xs ++ ys)
  append-In_left r [] ys i = absurd i
  append-In_left r (x ∷ xs) ys (inl e) = inl e
  append-In_left r (x ∷ xs) ys (inr i) = inr (append-In_left r xs ys i)

  pub append-In_right : (r : Row) (xs ys : List Row) → In r ys → In r (xs ++ ys)
  append-In_right r [] ys i = i
  append-In_right r (x ∷ xs) ys i = inr (append-In_right r xs ys i)

  pub In-reverse : (r : Row) (xs : List Row) → In r (reverse xs) ↔ In r xs
  In-reverse r [] = (λ i. i, λ i. i)
  In-reverse r (x ∷ xs) = rw (reverse-cons x xs) (
    (λ i. elim (In-append r (reverse xs) (x ∷ []) i) [
      | inl j ↦ inr ((In-reverse r xs).0 j)
      | inr (inl e) ↦ inl e
      | inr (inr j) ↦ absurd j
    ]),
    (λ i. elim i [
      | inl e ↦ append-In_right r (reverse xs) (x ∷ []) (inl e)
      | inr j ↦ append-In_left r (reverse xs) (x ∷ []) ((In-reverse r xs).1 j)
    ]),
  )

  abbrev pub Apart : (Row → Row → Bool) → Row → Row → Type 0
  Apart before x y = (before x y ≡ true) × (before y x ≡ false)

  pub All-of_In : (P : Row → Type 0) (xs : List Row) → ((r : Row) → In r xs → P r) → All P xs
  All-of_In P [] h = tt
  All-of_In P (x ∷ xs) h = (h x (inl refl), All-of_In P xs (λ r i. h r (inr i)))

  All-prefix : (P : Row → Type 0) (xs ys : List Row) → All P (xs ++ ys) → All P xs × All P ys
  All-prefix P [] ys h = (tt, h)
  All-prefix P (x ∷ xs) ys h = let (a, b) = All-prefix P xs ys h.1 in ((h.0, a), b)

  -- The parts of an ordered list are ordered, and each row of the first stands before each of the
  -- second.
  pub IsOrdered-split :
      (before : Row → Row → Bool) (xs ys : List Row)
      → IsOrdered before (xs ++ ys)
      → IsOrdered before xs × IsOrdered before ys × All (λ x. All (Apart before x) ys) xs
  IsOrdered-split before [] ys h = (tt, h, tt)
  IsOrdered-split before (x ∷ xs) ys h =
      let (a, b) = All-prefix (Apart before x) xs ys h.0 in
      let (p, q, r) = IsOrdered-split before xs ys h.1 in ((a, p), q, (b, r))

  IsOrdered-snoc :
      (before : Row → Row → Bool) (xs : List Row) (y : Row)
      → IsOrdered before xs
      → All (λ x. Apart before x y) xs
      → IsOrdered before (xs ++ y ∷ [])
  IsOrdered-snoc before [] y h a = (tt, tt)
  IsOrdered-snoc before (x ∷ xs) y h a =
      (All-append (Apart before x) xs (y ∷ []) h.0 (a.0, tt), IsOrdered-snoc before xs y h.1 a.1)

  pub IsOrdered-reverse :
      (before : Row → Row → Bool) (xs : List Row)
      → IsOrdered before xs
      → IsOrdered (λ a b. before b a) (reverse xs)
  IsOrdered-reverse before [] h = tt
  IsOrdered-reverse before (x ∷ xs) h = rw (reverse-cons x xs) (
      IsOrdered-snoc (λ a b. before b a) (reverse xs) x (IsOrdered-reverse before xs h.1)
        (All-of_In (λ y. Apart (λ a b. before b a) y x) (reverse xs)
          (λ r i. In-All (Apart before x) xs h.0 ((In-reverse r xs).0 i))))

  pub Arranges-cong :
      (before : Row → Row → Bool) (p q : Row → Bool) (rows s : List Row)
      → ((r : Row) → p r ≡ q r)
      → Arranges before p rows s
      → Arranges before q rows s
  Arranges-cong before p q rows s h a = rw (← fun_ext h) a

  module _ (before : Row → Row → Bool) (p : Row → Bool) (rows pre post : List Row) (c : Row)
      (irreflexive : before c c ≡ false) (arranged : Arranges before p rows (pre ++ c ∷ post)) where
    behind :
        IsOrdered before pre
        × IsOrdered before (c ∷ post)
        × All (λ x. All (Apart before x) (c ∷ post)) pre
    behind = IsOrdered-split before pre (c ∷ post) arranged.0

    -- The rows behind a row of an arrangement arrange the rows that come after it.
    pub Arranges-after : Arranges before (λ r. p r && before c r) rows post
    Arranges-after = (
      behind.1.1,
      λ r. (
        λ i. (
          ((arranged.1 r).0 (append-In_right r pre (c ∷ post) (inr i))).0,
          rw ((arranged.1 r).0 (append-In_right r pre (c ∷ post) (inr i))).1
              (In-All (Apart before c) post behind.1.0 i).0,
        ),
        λ h. after r h.0 (ground arith) (ground arith),
      ),
    )
      where
        after : (r : Row) → In r rows → p r ≡ true → before c r ≡ true → In r post
        after r i e b = elim (In-append r pre (c ∷ post) ((arranged.1 r).1 (i, e))) [
          | inl j ↦ cc ((In-All (λ x. All (Apart before x) (c ∷ post)) pre behind.2 j).0.1, b)
          | inr (inl same) ↦ cc (irreflexive, b, ap (before c) same)
          | inr (inr j) ↦ j
        ]

    -- The rows before it, in the opposite order, arrange those that come before it.
    pub Arranges-before : Arranges (λ a b. before b a) (λ r. p r && before r c) rows (reverse pre)
    Arranges-before = (
      IsOrdered-reverse before pre behind.0,
      λ r. (
        λ i.
            let j = (In-reverse r pre).0 i in
            (
              ((arranged.1 r).0 (append-In_left r pre (c ∷ post) j)).0,
              rw ((arranged.1 r).0 (append-In_left r pre (c ∷ post) j)).1
                  (In-All (λ x. All (Apart before x) (c ∷ post)) pre behind.2 j).0.0,
            ),
        λ h. (In-reverse r pre).1 (earlier r h.0 (ground arith) (ground arith)),
      ),
    )
      where
        earlier : (r : Row) → In r rows → p r ≡ true → before r c ≡ true → In r pre
        earlier r i e b = elim (In-append r pre (c ∷ post) ((arranged.1 r).1 (i, e))) [
          | inl j ↦ j
          | inr (inl same) ↦ cc (irreflexive, b, ap (λ x. before x c) same)
          | inr (inr j) ↦ cc ((In-All (Apart before c) post behind.1.0 j).1, b)
        ]
