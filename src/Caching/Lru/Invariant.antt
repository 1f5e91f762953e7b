-- ===== src/Caching/Lru/Invariant.antt =====
-- What the operations of the cache compute, in one equation each, and its invariant.
use block_feed_prototype.Prelude.{
  ℕ, ◌≤◌, ◌≡◌, ap, Option-cases, inl, inr, max, true, false, [], ◌∷◌, String, arith, length,
  eq_refl, Bool-cases, length-append, string_eq, if◌then◌else◌,
}
use block_feed_prototype.Js.Map
use block_feed_prototype.Js.Map.{Map, NodupKeys}
use block_feed_prototype.Caching.Lru.Defs.{
  Nullable, or_undefined, is_defined, is_nullish, reinsert, invalidate, get, set, get_or_set, evict,
}
use block_feed_prototype.Caching.Lru.Window.{
  touch, recent, recent_of_length-le, length-recent-le, recent-NodupKeys, touch-NodupKeys,
  length-touch-has,
}

-- A capacity of 0 keeps one entry, since `set` inserts after it has made room.
abbrev pub room : ℕ → ℕ
room capacity = max capacity 1

pub record IsValid {T : Type 0} (capacity : ℕ) (cache : Map String (Nullable T)) : Type 0 where
  pub bounded : length cache ≤ room capacity
  pub distinct : NodupKeys cache

module _ {T : Type 0} where
  pub reinsert-touch :
      (k : String) (v : Nullable T) (m : Map String (Nullable T)) → reinsert k v m ≡ touch k v m
  unfolding reinsert
  reinsert-touch k v m = Map.set_of_has k v (Map.delete k m) (rw Map.has-delete (ground arith))

  evict-recent :
      (capacity : ℕ) (k : String) (v : Nullable T) (m : Map String (Nullable T))
      → IsValid capacity m
      → Map.has k m ≡ false
      → capacity ≤ length m
      → touch k v (evict m) ≡ recent (room capacity) (touch k v m)
  unfolding Map.delete Map.has recent
  evict-recent capacity k v [] h new full = ground arith
  evict-recent capacity k v ((j, w) ∷ m) h new full = ground (
    arith,
    Map.delete_of_has j m h.distinct.0,
    eq_refl j,
    length-append m ((k, v) ∷ []),
    Map.delete_of_has k m,
    recent_of_length-le (room capacity) (touch k v m),
  )

  module _ (capacity : ℕ) (k : String) (v : Nullable T) where
    -- On a valid cache `set` keeps the most recently used entries, the new one included.
    pub set-recent :
        (m : Map String (Nullable T))
        → IsValid capacity m
        → set capacity k v m ≡ recent (room capacity) (touch k v m)
    unfolding set
    set-recent m h = ground (
      arith,
      reinsert-touch k v m,
      reinsert-touch k v (evict m),
      evict-recent capacity k v m h,
      recent_of_length-le (room capacity) (touch k v m),
      length-touch-has k v m,
      length-append m ((k, v) ∷ []),
      Map.delete_of_has k m,
    )

    pub set-IsValid :
        (m : Map String (Nullable T)) → IsValid capacity m → IsValid capacity (set capacity k v m)
    set-IsValid m h = rw (set-recent m h) (record {
      bounded = length-recent-le (room capacity) (touch k v m);
      distinct = recent-NodupKeys (room capacity) (touch k v m) (touch-NodupKeys k v m h.distinct);
    })

  -- The value that `get` returns; a stored `undefined` reads as a missing key.
  abbrev pub read : String → Map String (Nullable T) → Nullable T
  read k m = or_undefined (Map.get k m)

  pub read-reinsert :
      (k : String) (v : Nullable T) (m : Map String (Nullable T)) → read k (reinsert k v m) ≡ v
  unfolding reinsert
  read-reinsert k v m = rw (Map.get-set k k v (Map.delete k m)) (ground (arith, eq_refl k))

  pub read-set :
      (capacity : ℕ) (k : String) (v : Nullable T) (m : Map String (Nullable T))
      → read k (set capacity k v m) ≡ v
  unfolding set
  read-set capacity k v m = read-reinsert k v _

  pub has_of_read :
      (k : String) (m : Map String (Nullable T)) → is_defined (read k m) ≡ true → Map.has k m ≡ true
  has_of_read k m h = elim (Option-cases (Map.get k m)) [
    | inl absent ↦ ground arith
    | inr (v, e) ↦ Map.has_of_get k v m e
  ]

  pub get-touch :
      (k : String) (m : Map String (Nullable T))
      → get k m ≡ (read k m, if is_defined (read k m) then touch k (read k m) m else m)
  unfolding get
  get-touch k m =
      ap (λ t. (read k m, if is_defined (read k m) then t else m)) (reinsert-touch k (read k m) m)

  module _ (capacity : ℕ) (k : String) where
    touch-IsValid :
        (v : Nullable T) (m : Map String (Nullable T))
        → IsValid capacity m
        → Map.has k m ≡ true
        → IsValid capacity (touch k v m)
    touch-IsValid v m h present = record {
      bounded = omega (arith, length-touch-has k v m present, h.bounded);
      distinct = touch-NodupKeys k v m h.distinct;
    }

    pub get-IsValid :
        (m : Map String (Nullable T)) → IsValid capacity m → IsValid capacity (get k m).1
    get-IsValid m h = rw get-touch (elim (Bool-cases (is_defined (read k m))) [
      | inl hit ↦ rw hit (touch-IsValid (read k m) m h (has_of_read k m hit))
      | inr miss ↦ rw miss h
    ])

    pub invalidate-IsValid :
        (m : Map String (Nullable T)) → IsValid capacity m → IsValid capacity (invalidate k m).1
    unfolding invalidate
    invalidate-IsValid m h = record {
      bounded = omega (arith, Map.length-delete_le k m, h.bounded);
      distinct = Map.delete-NodupKeys k m h.distinct;
    }

    pub get_or_set-IsValid :
        {P : Type 0} (cb : P → Nullable T) (params : P) (m : Map String (Nullable T))
        → IsValid capacity m
        → IsValid capacity (get_or_set capacity cb k params m).1
    unfolding get_or_set
    get_or_set-IsValid cb params m h = elim (Bool-cases (is_nullish (get k m).0)) [
      | inl missing ↦ rw missing (set-IsValid capacity k _ _ (get-IsValid m h))
      | inr present ↦ rw present (get-IsValid m h)
    ]
