-- ===== src/Caching/Lru/History.antt =====
-- Sequences of calls on one cache, against a history of uses that forgets nothing.
use block_feed_prototype.Prelude.{
  ℕ, ◌≡◌, refl, inl, inr, List, [], ◌∷◌, String, arith, Bool-cases, if◌then◌else◌, string_eq, ◌∙◌,
}
use block_feed_prototype.Js.Map.{Map, NodupKeys}
use block_feed_prototype.Caching.Lru.Defs.{
  Nullable, is_defined, is_nullish, coalesce, invalidate, get, set, get_or_set,
}
use block_feed_prototype.Caching.Lru.Window.{
  touch, recent, recent_of_length-le, recent-touch-recent, recent-NodupKeys, touch-NodupKeys,
  length-touch-has, length-recent-le,
}
use block_feed_prototype.Caching.Lru.Invariant.{
  room, IsValid, read, read-set, read-reinsert, has_of_read, get-touch, set-recent, get-IsValid,
  set-IsValid, invalidate-IsValid, get_or_set-IsValid,
}

-- The calls that use an entry; `getting_or_setting` carries the callback's parameters.
pub data Use (T P : Type 0) : Type 0 where
  getting : String → Use T P
  setting : String → Nullable T → Use T P
  getting_or_setting : String → P → Use T P

pub data Call (T P : Type 0) : Type 0 where
  using : Use T P → Call T P
  invalidating : String → Call T P

module _ {T P : Type 0} (capacity : ℕ) (cb : P → Nullable T) where
  -- The cache after one call.
  abbrev pub use_step : Use T P → Map String (Nullable T) → Map String (Nullable T)
  use_step (getting k) m = (get k m).1
  use_step (setting k v) m = set capacity k v m
  use_step (getting_or_setting k p) m = (get_or_set capacity cb k p m).1

  abbrev pub step : Call T P → Map String (Nullable T) → Map String (Nullable T)
  step (using u) m = use_step u m
  step (invalidating k) m = (invalidate k m).1

  abbrev pub run_uses : List (Use T P) → Map String (Nullable T) → Map String (Nullable T)
  run_uses [] m = m
  run_uses (u ∷ us) m = run_uses us (use_step u m)

  abbrev pub run : List (Call T P) → Map String (Nullable T) → Map String (Nullable T)
  run [] m = m
  run (c ∷ cs) m = run cs (step c m)

  step-IsValid :
      (c : Call T P) (m : Map String (Nullable T))
      → IsValid capacity m
      → IsValid capacity (step c m)
  step-IsValid (using (getting k)) m h = get-IsValid capacity k m h
  step-IsValid (using (setting k v)) m h = set-IsValid capacity k v m h
  step-IsValid (using (getting_or_setting k p)) m h = get_or_set-IsValid capacity k cb p m h
  step-IsValid (invalidating k) m h = invalidate-IsValid capacity k m h

  -- Whatever the calls, a valid cache stays valid: no key twice, and at most `capacity` entries
  -- (one entry, if `capacity` is 0).
  pub run-IsValid :
      (calls : List (Call T P)) (m : Map String (Nullable T))
      → IsValid capacity m
      → IsValid capacity (run calls m)
  run-IsValid [] m h = h
  run-IsValid (c ∷ cs) m h = run-IsValid cs (step c m) (step-IsValid c m h)

  -- What a use adds to the history: `get` counts if it finds a value among the recent entries.
  unfoldable pub note_get : String → Map String (Nullable T) → Map String (Nullable T)
  note_get k h =
      let v = read k (recent (room capacity) h) in if is_defined v then touch k v h else h

  unfoldable pub note : Use T P → Map String (Nullable T) → Map String (Nullable T)
  unfolding note_get
  note (getting k) h = note_get k h
  note (setting k v) h = touch k v h
  note (getting_or_setting k p) h =
      let cached = read k (recent (room capacity) h) in
      if is_nullish cached then touch k (coalesce cached (cb p)) (note_get k h) else note_get k h

  abbrev pub note_all : List (Use T P) → Map String (Nullable T) → Map String (Nullable T)
  note_all [] h = h
  note_all (u ∷ us) h = note_all us (note u h)

  window-IsValid :
      (h : Map String (Nullable T)) → NodupKeys h → IsValid capacity (recent (room capacity) h)
  window-IsValid h u = record {
    bounded = length-recent-le (room capacity) h;
    distinct = recent-NodupKeys (room capacity) h u;
  }

  note_get-NodupKeys :
      (k : String) (h : Map String (Nullable T)) → NodupKeys h → NodupKeys (note_get k h)
  unfolding note_get
  note_get-NodupKeys k h u =
      ground (arith, touch-NodupKeys k (read k (recent (room capacity) h)) h u)

  get-window :
      (k : String) (h : Map String (Nullable T))
      → NodupKeys h
      → (get k (recent (room capacity) h)).1 ≡ recent (room capacity) (note_get k h)
  unfolding note_get
  get-window k h u =
      let w = recent (room capacity) h in
      rw (get-touch k w) (
        ground (
          arith,
          has_of_read k w,
          recent-touch-recent (room capacity) k (read k w) h u,
          length-touch-has k (read k w) w,
          length-recent-le (room capacity) h,
          recent_of_length-le (room capacity) (touch k (read k w) w),
        ))

  set-window :
      (k : String) (v : Nullable T) (h : Map String (Nullable T))
      → NodupKeys h
      → set capacity k v (recent (room capacity) h) ≡ recent (room capacity) (touch k v h)
  set-window k v h u =
      set-recent capacity k v (recent (room capacity) h) (window-IsValid h u)
      ∙ recent-touch-recent (room capacity) k v h u

  note-NodupKeys : (u : Use T P) (h : Map String (Nullable T)) → NodupKeys h → NodupKeys (note u h)
  unfolding note
  note-NodupKeys (getting k) h d = note_get-NodupKeys k h d
  note-NodupKeys (setting k v) h d = touch-NodupKeys k v h d
  note-NodupKeys (getting_or_setting k p) h d =
      elim (Bool-cases (is_nullish (read k (recent (room capacity) h)))) [
        | inl missing ↦ rw missing (touch-NodupKeys k _ (note_get k h) (note_get-NodupKeys k h d))
        | inr present ↦ rw present (note_get-NodupKeys k h d)
      ]

  use_step-window :
      (u : Use T P) (h : Map String (Nullable T))
      → NodupKeys h
      → use_step u (recent (room capacity) h) ≡ recent (room capacity) (note u h)
  unfolding note get_or_set
  use_step-window (getting k) h d = get-window k h d
  use_step-window (setting k v) h d = set-window k v h d
  use_step-window (getting_or_setting k p) h d =
      let w = recent (room capacity) h in
      ground (
        arith,
        get-touch k w,
        get-window k h d,
        set-window k (coalesce (read k w) (cb p)) (note_get k h) (note_get-NodupKeys k h d),
      )

  -- After any sequence of `get`, `set` and `getOrSet` calls on an empty cache, the cache holds
  -- exactly the `capacity` most recently used entries of the whole history (one entry, if
  -- `capacity` is 0), oldest use first: what was evicted is always the least recently used.
  pub run-window : (us : List (Use T P)) → run_uses us [] ≡ recent (room capacity) (note_all us [])
  unfolding recent
  run-window us = run_from us [] tt
    where
      run_from :
          (us : List (Use T P)) (h : Map String (Nullable T))
          → NodupKeys h
          → run_uses us (recent (room capacity) h) ≡ recent (room capacity) (note_all us h)
      run_from [] h d = refl
      run_from (u ∷ us) h d =
          rw (use_step-window u h d) (run_from us (note u h) (note-NodupKeys u h d))

module _ {T P : Type 0} (capacity : ℕ) (k : String) (m : Map String (Nullable T)) where
  -- What `getOrSet` returned is what the next `get` of the key returns; it is the cached value, or
  -- the callback's where the cache had none, an `undefined` or a `null`.
  pub get-get_or_set :
      (cb : P → Nullable T) (params : P)
      → ((get k (get_or_set capacity cb k params m).1).0 ≡ (get_or_set capacity cb k params m).0)
        × ((get_or_set capacity cb k params m).0 ≡ coalesce (read k m) (cb params))
  unfolding get_or_set get
  get-get_or_set cb params = (
    ground (
      arith,
      read-reinsert k (read k m) m,
      read-set capacity k (coalesce (read k m) (cb params)) (get k m).1,
    ),
    refl,
  )
