-- ===== src/Db/Table.antt =====
-- One table of the database behind the query builder (`drizzle`), which is a parameter of the
-- model: its calls, and what the code relies on of them. A `where` clause is the Boolean function
-- of a row that the code builds; columns are compared exactly.
use block_feed_prototype.Prelude.{
  ℕ, Bool, true, false, not, Option, none, some, List, [], ◌∷◌, ◌++◌, ◌≡◌, ◌⊎◌, ◌↔◌, take, ◌||◌,
  length, keep, All, if◌then◌else◌,
}
use block_feed_prototype.Promise.{M, OnOk, Keeps, Fails}

pub record Table (W Row : Type 0) : Type 0 where
  pub find_first : (Row → Bool) → M W (Option Row)
  pub find_many : (Row → Bool) → M W (List Row)
  -- `findMany` with `orderBy` and `limit`: the order is a test that a row comes before another.
  pub find_page : (Row → Bool) → (Row → Row → Bool) → ℕ → M W (List Row)
  -- `select … for("update", { skipLocked: true })`
  pub select_for_update : (Row → Bool) → M W (List Row)
  -- These give the number of affected rows.
  pub insert : Row → M W ℕ
  pub insert_ignore : Row → M W ℕ
  pub update : (Row → Row) → (Row → Bool) → M W ℕ
  pub delete : (Row → Bool) → M W ℕ

module _ {Row : Type 0} where
  abbrev pub In : Row → List Row → Type 0
  In r [] = ⊥
  In r (x ∷ xs) = (r ≡ x) ⊎ In r xs

  abbrev pub Distinct : List Row → Type 0
  Distinct [] = Unit
  Distinct (x ∷ xs) = (¬ In x xs) × Distinct xs

  -- Every row stands before all that follow it, and after none of them.
  abbrev pub IsOrdered : (Row → Row → Bool) → List Row → Type 0
  IsOrdered before [] = Unit
  IsOrdered before (x ∷ xs) =
      All (λ y. (before x y ≡ true) × (before y x ≡ false)) xs × IsOrdered before xs

  -- `s` holds the rows that pass, and no others, in the order asked for.
  abbrev pub Arranges : (Row → Row → Bool) → (Row → Bool) → List Row → List Row → Type 0
  Arranges before p rows s = IsOrdered before s × ((r : Row) → In r s ↔ (In r rows × (p r ≡ true)))

  -- The answer of `findFirst`: some row that passes, and `undefined` only if none does.
  abbrev pub Found : (Row → Bool) → List Row → Option Row → Type 0
  Found p rows none = All (λ r. p r ≡ false) rows
  Found p rows (some r) = In r rows × (p r ≡ true)

  abbrev pub clashes_with : (Row → Row → Bool) → Row → List Row → Bool
  clashes_with clash r [] = false
  clashes_with clash r (x ∷ xs) = clash r x || clashes_with clash r xs

  abbrev pub update_rows : (Row → Row) → (Row → Bool) → List Row → List Row
  update_rows f p [] = []
  update_rows f p (r ∷ rows) = (if p r then f r else r) ∷ update_rows f p rows

  abbrev pub delete_rows : (Row → Bool) → List Row → List Row
  delete_rows p rows = keep (λ r. not (p r)) rows

  abbrev pub insert_ignore_row : (Row → Row → Bool) → Row → List Row → List Row
  insert_ignore_row clash r rows = if clashes_with clash r rows then rows else rows ++ r ∷ []

-- `rows` is what the table holds, `clash` its unique keys. Nothing is said of a call that fails,
-- but that a query changes nothing.
pub record IsTable {W Row : Type 0} (t : Table W Row) (rows : W → List Row)
    (clash : Row → Row → Bool) : Type 0 where
  pub find_first_keeps : (p : Row → Bool) → Keeps rows (t.find_first p)
  pub find_first_value :
      (p : Row → Bool) (w : W) → OnOk (t.find_first p w).0 (λ o. Found p (rows w) o)
  pub find_many_keeps : (p : Row → Bool) → Keeps rows (t.find_many p)
  pub find_many_value :
      (p : Row → Bool) (w : W) → OnOk (t.find_many p w).0 (λ rs. rs ≡ keep p (rows w))
  pub find_page_keeps :
      (p : Row → Bool) (before : Row → Row → Bool) (n : ℕ) → Keeps rows (t.find_page p before n)
  pub find_page_value :
      (p : Row → Bool) (before : Row → Row → Bool) (n : ℕ) (w : W)
      → OnOk
          (t.find_page p before n w).0
          (λ rs. Distinct (rows w) → (s : List Row) → Arranges before p (rows w) s → rs ≡ take n s)
  pub select_for_update_keeps : (p : Row → Bool) → Keeps rows (t.select_for_update p)
  -- Rows that another transaction has locked are skipped.
  pub select_for_update_value :
      (p : Row → Bool) (w : W)
      → OnOk (t.select_for_update p w).0 (λ rs. All (λ r. In r (rows w) × (p r ≡ true)) rs)
  pub insert_value :
      (r : Row) (w : W)
      → OnOk (t.insert r w).0 (λ n.
        (n ≡ 1)
        × (rows (t.insert r w).1 ≡ rows w ++ r ∷ [])
        × (clashes_with clash r (rows w) ≡ false))
  pub insert_ignore_value :
      (r : Row) (w : W)
      → OnOk
          (t.insert_ignore r w).0
          (λ n. rows (t.insert_ignore r w).1 ≡ insert_ignore_row clash r (rows w))
  pub update_value :
      (f : Row → Row) (p : Row → Bool) (w : W)
      → OnOk (t.update f p w).0 (λ n.
        (n ≡ length (keep p (rows w))) × (rows (t.update f p w).1 ≡ update_rows f p (rows w)))
  -- A statement that fails is rolled back.
  pub update_failed :
      (f : Row → Row) (p : Row → Bool) (w : W)
      → Fails (t.update f p w)
      → rows (t.update f p w).1 ≡ rows w
  pub delete_value :
      (p : Row → Bool) (w : W)
      → OnOk
          (t.delete p w).0
          (λ n. (n ≡ length (keep p (rows w))) × (rows (t.delete p w).1 ≡ delete_rows p (rows w)))
