-- ===== src/Caching/RedisCache/Laws.antt =====
-- What the cache does to a Redis whose calls behave as documented.
use block_feed_prototype.Prelude.{
  ℕ, Option, none, some, String, ◌≡◌, ◌≢◌, ◌==◌, string_eq, if◌then◌else◌, arith, eq_refl,
}
use block_feed_prototype.Promise.{M, Result, ok, OnOk, Keeps}
use block_feed_prototype.Caching.RedisCache.{
  Redis, Json, prefix_with_namespace, get, set, get_or_set, invalidate,
}

-- `store` is what the keys hold. Nothing is said of the store after a failed write; expiry is the
-- environment's and does not happen inside a call.
pub record IsStore {W : Type 0} (redis : Redis W) (store : W → String → Option String)
    : Type 0 where
  pub get_keeps : (k : String) → Keeps store (redis.get k)
  pub get_value : (k : String) (w : W) → OnOk (redis.get k w).0 (λ v. v ≡ store w k)
  pub set_value :
      (k v : String) (px : Option ℕ) (j : String) (w : W)
      → OnOk
          (redis.set k v px w).0
          (λ _. store (redis.set k v px w).1 j ≡ (if j == k then some v else store w j))
  pub del_value :
      (k j : String) (w : W)
      → OnOk
          (redis.del k w).0
          (λ _. store (redis.del k w).1 j ≡ (if j == k then none else store w j))

-- What a text that Redis holds stands for.
abbrev pub decode {ℓ} :
    {T : Type ℓ} → (String → Result (Option T)) → Option String → Result (Option T)
decode parse none = ok none
decode parse (some text) = parse text

module _ {W T : Type 0} (redis : Redis W) (store : W → String → Option String)
    (lawful : IsStore redis store) (json : Json T) (namespace : Option String) where
  get-Keeps : (key : String) → Keeps store (get redis json namespace key)
  unfolding get
  get-Keeps key w = ground (arith, lawful.get_keeps (prefix_with_namespace namespace key) w)

  get-decode :
      (key : String) (w : W)
      → OnOk
          (get redis json namespace key w).0
          (λ v. decode json.parse (store w (prefix_with_namespace namespace key)) ≡ ok v)
  unfolding get
  get-decode key w = ground (arith, lawful.get_value (prefix_with_namespace namespace key) w)

  -- After `getOrSet` has returned a value, Redis holds a text for the key that parses to that value:
  -- until the entry expires or is written again, a `get` that succeeds returns it.
  pub get_of_get_or_set :
      ((t : T) → json.parse (json.stringify t) ≡ ok (some t))
      → {P : Type 0} (px : Option ℕ) (cb : P → M W T) (key : String) (params : P) (w w' : W) (t : T)
      → (get_or_set redis json namespace px cb key params w).0 ≡ ok t
      → store w' (prefix_with_namespace namespace key)
        ≡ store
            (get_or_set redis json namespace px cb key params w).1
            (prefix_with_namespace namespace key)
      → OnOk (get redis json namespace key w').0 (λ v. v ≡ some t)
  unfolding get_or_set set
  get_of_get_or_set round_trip px cb key params w w' t done same =
      let k = prefix_with_namespace namespace key in
      let v = get redis json namespace key w in
      ground (
        arith,
        get-Keeps key w,
        get-decode key w,
        get-decode key w',
        round_trip t,
        eq_refl k,
        lawful.set_value k (json.stringify t) px k (cb params v.1).1,
      )

  -- `getOrSet` writes no other key, if its callback writes none.
  pub get_or_set-other :
      {P : Type 0} (px : Option ℕ) (cb : P → M W T) (key : String) (params : P)
      → Keeps store (cb params)
      → (w : W) (t : T) (j : String) → (get_or_set redis json namespace px cb key params w).0 ≡ ok t
      → j ≢ prefix_with_namespace namespace key
      → store (get_or_set redis json namespace px cb key params w).1 j ≡ store w j
  unfolding get_or_set set
  get_or_set-other px cb key params keeps w t j done differ =
      let k = prefix_with_namespace namespace key in
      let v = get redis json namespace key w in
      ground (
        arith,
        get-Keeps key w,
        keeps v.1,
        lawful.set_value k (json.stringify t) px j (cb params v.1).1,
      )

  -- What `getOrSet` returns for a key that was just taken out comes from its callback.
  pub get_or_set_of_invalidate :
      {P : Type 0} (px : Option ℕ) (cb : P → M W T) (key : String) (params : P) (w : W) (n : ℕ)
      (t : T)
      → (invalidate redis json namespace key w).0 ≡ ok n
      → (get_or_set redis json namespace px cb key params
          (invalidate redis json namespace key w).1).0
        ≡ ok t
      → (w' : W) × ((cb params w').0 ≡ ok t)
  unfolding get_or_set set invalidate
  get_or_set_of_invalidate px cb key params w n t deleted got =
      let k = prefix_with_namespace namespace key in
      let w₁ = (invalidate redis json namespace key w).1 in
      (
        (get redis json namespace key w₁).1,
        ground (arith, get-decode key w₁, eq_refl k, lawful.del_value k k w),
      )

  -- A value that Redis holds for the key is returned, whatever the callback would give.
  pub get_or_set_hit :
      {P : Type 0} (px : Option ℕ) (cb : P → M W T) (key : String) (params : P) (w : W)
      (text : String) (t : T)
      → store w (prefix_with_namespace namespace key) ≡ some text
      → json.parse text ≡ ok (some t)
      → OnOk (get_or_set redis json namespace px cb key params w).0 (λ v. v ≡ t)
  unfolding get_or_set
  get_or_set_hit px cb key params w text t held parsed = ground (arith, get-decode key w)
