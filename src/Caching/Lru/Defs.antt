-- ===== src/Caching/Lru/Defs.antt =====
-- packages/node/caching/src/core/lru.cache.ts: the closures of `createLruCache` over the captured
-- `cache` and `capacity`. A call returns its result and the `Map` that it leaves.
use block_feed_prototype.Prelude.{
  ℕ, Bool, true, false, not, ◌&&◌, Option, none, some, [], ◌∷◌, String, leb, string_eq,
  if◌then◌else◌, length,
}
use block_feed_prototype.Js.Map
use block_feed_prototype.Caching.Types.{CallbackCache}
use block_feed_prototype.Js.Map.{Map}

-- A value of `T | null | undefined`.
pub data Nullable {ℓ} (T : Type ℓ) : Type ℓ where
  undefined null : Nullable T
  val : T → Nullable T

-- `Map.prototype.get`: `undefined` stands for a missing key as well as for a stored `undefined`.
abbrev pub or_undefined {ℓ} : {T : Type ℓ} → Option (Nullable T) → Nullable T
or_undefined none = undefined
or_undefined (some v) = v

-- `v !== undefined`
abbrev pub is_defined {ℓ} : {T : Type ℓ} → Nullable T → Bool
is_defined undefined = false
is_defined _ = true

-- `v == null`
abbrev pub is_nullish {ℓ} : {T : Type ℓ} → Nullable T → Bool
is_nullish (val t) = false
is_nullish _ = true

-- `v ?? d`
abbrev pub coalesce {ℓ} : {T : Type ℓ} → Nullable T → Nullable T → Nullable T
coalesce (val t) d = val t
coalesce _ d = d

-- `Array.from(cache.keys()).at(0)`
abbrev pub first_key {ℓ} : {T : Type ℓ} → Map String T → Option String
first_key [] = none
first_key ((k, v) ∷ m) = some k

module _ {T : Type 0} where
  unfoldable pub reinsert : String → Nullable T → Map String (Nullable T) → Map String (Nullable T)
  reinsert key v cache = Map.set key v (Map.delete key cache)

  -- The number of entries that were taken out.
  unfoldable pub invalidate : String → Map String (Nullable T) → ℕ × Map String (Nullable T)
  invalidate key cache = (if Map.has key cache then 1 else 0, Map.delete key cache)

  unfoldable pub get : String → Map String (Nullable T) → Nullable T × Map String (Nullable T)
  unfolding reinsert
  get key cache =
      let v = or_undefined (Map.get key cache) in
      (v, if is_defined v then reinsert key v cache else cache)

  -- The eviction at the head of `set`.
  abbrev pub evict : Map String (Nullable T) → Map String (Nullable T)
  evict cache = elim (first_key cache) [ some k ↦ Map.delete k cache | none ↦ cache ]

  module _ (capacity : ℕ) where
    unfoldable pub set : String → Nullable T → Map String (Nullable T) → Map String (Nullable T)
    unfolding reinsert
    set key v cache =
        reinsert key v
          (if leb capacity (length cache) && not (Map.has key cache) then evict cache else cache)

    -- `cb` is the callback that `setCallback` was given, at its parameters; it does not touch the cache.
    unfoldable pub get_or_set :
        {P : Type 0}
        → (P → Nullable T)
        → String
        → P
        → Map String (Nullable T)
        → Nullable T × Map String (Nullable T)
    unfolding get set
    get_or_set cb key params cache =
        let (cached, after) = get key cache in
        let fresh = coalesce cached (cb params) in
        (fresh, if is_nullish cached then set key fresh after else after)

-- What `setCallback` returns, over a cache that `view` finds in the world and `replace` puts back.
module _ {W T : Type 0} (view : W → Map String (Nullable T))
    (replace : Map String (Nullable T) → W → W) where
  abbrev in_world : {A : Type 0} → A × Map String (Nullable T) → W → A × W
  in_world r w = (r.0, replace r.1 w)

  abbrev pub set_callback : {P : Type 0} → ℕ → (P → Nullable T) → CallbackCache W (Nullable T) P
  set_callback capacity cb = record {
    get = λ key w. in_world (get key (view w)) w;
    set = λ key v w. replace (set capacity key v (view w)) w;
    invalidate = λ key w. in_world (invalidate key (view w)) w;
    get_or_set = λ key params w. in_world (get_or_set capacity cb key params (view w)) w;
  }
