-- ===== src/Js/Map.antt =====
-- The built-in `Map`: a list of entries, oldest insertion first. `set` on a key that is present
-- changes the value in its place; `delete` and `set` together move the key to the end.
use block_feed_prototype.Prelude.{
  ◌+◌, ◌≤◌, ◌≡◌, refl, Bool, true, false, ◌||◌, Option, none, some, List, [], ◌∷◌, ◌++◌, arith, Eq,
  ◌==◌, if◌then◌else◌, length,
}

abbrev pub Map {ℓ κ} : Type ℓ → Type κ → Type (ℓ ⊔ κ)
Map K V = List (K × V)

module _ {ℓ κ} {K : Type ℓ} {V : Type κ} where
  abbrev pub keys : Map K V → List K
  keys [] = []
  keys ((k, v) ∷ m) = k ∷ keys m

  abbrev pub values : Map K V → List V
  values [] = []
  values ((k, v) ∷ m) = v ∷ values m

module _ {ℓ κ} {K : Type ℓ} {V : Type κ} ⦃e : Eq K⦄ where
  unfoldable pub get : K → Map K V → Option V
  get k [] = none
  get k ((j, v) ∷ m) = if j == k then some v else get k m

  unfoldable pub has : K → Map K V → Bool
  has k [] = false
  has k ((j, v) ∷ m) = j == k || has k m

  unfoldable pub set : K → V → Map K V → Map K V
  set k v [] = (k, v) ∷ []
  set k v ((j, w) ∷ m) = if j == k then (j, v) ∷ m else (j, w) ∷ set k v m

  -- A map holds a key once at most, so there is one entry to take out.
  unfoldable pub delete : K → Map K V → Map K V
  delete k [] = []
  delete k ((j, w) ∷ m) = if j == k then delete k m else (j, w) ∷ delete k m

  abbrev pub NodupKeys : Map K V → Type 0
  NodupKeys [] = Unit
  NodupKeys ((k, v) ∷ m) = (has k m ≡ false) × NodupKeys m

  pub get-set :
      (j k : K) (v : V) (m : Map K V) → get j (set k v m) ≡ (if k == j then some v else get j m)
  unfolding get set
  get-set j k v [] = refl
  get-set j k v ((i, w) ∷ m) = ground (arith, get-set j k v m)

  pub get-delete : (j k : K) (m : Map K V) → get j (delete k m) ≡ (if k == j then none else get j m)
  unfolding get delete
  get-delete j k [] = ground arith
  get-delete j k ((i, w) ∷ m) = ground (arith, get-delete j k m)

  pub has-set : (j k : K) (v : V) (m : Map K V) → has j (set k v m) ≡ (k == j || has j m)
  unfolding has set
  has-set j k v [] = ground arith
  has-set j k v ((i, w) ∷ m) = ground (arith, has-set j k v m)

  pub has-delete :
      (j k : K) (m : Map K V) → has j (delete k m) ≡ (if k == j then false else has j m)
  unfolding has delete
  has-delete j k [] = ground arith
  has-delete j k ((i, w) ∷ m) = ground (arith, has-delete j k m)

  pub has-append : (k : K) (m n : Map K V) → has k (m ++ n) ≡ (has k m || has k n)
  unfolding has
  has-append k [] n = refl
  has-append k ((i, w) ∷ m) n = ground (arith, has-append k m n)

  pub get_of_has : (k : K) (m : Map K V) → has k m ≡ false → get k m ≡ none
  unfolding has get
  get_of_has k [] h = refl
  get_of_has k ((i, w) ∷ m) h = ground (arith, get_of_has k m)

  pub has_of_get : (k : K) (v : V) (m : Map K V) → get k m ≡ some v → has k m ≡ true
  unfolding has get
  has_of_get k v [] h = cc
  has_of_get k v ((i, w) ∷ m) h = ground (arith, has_of_get k v m)

  pub set_of_has : (k : K) (v : V) (m : Map K V) → has k m ≡ false → set k v m ≡ m ++ (k, v) ∷ []
  unfolding has set
  set_of_has k v [] h = refl
  set_of_has k v ((i, w) ∷ m) h = ground (arith, set_of_has k v m)

  pub delete_of_has : (k : K) (m : Map K V) → has k m ≡ false → delete k m ≡ m
  unfolding has delete
  delete_of_has k [] h = refl
  delete_of_has k ((i, w) ∷ m) h = ground (arith, delete_of_has k m)

  pub length-delete_le : (k : K) (m : Map K V) → length (delete k m) ≤ length m
  unfolding delete
  length-delete_le k [] = omega arith
  length-delete_le k ((i, w) ∷ m) = ground (arith, length-delete_le k m)

  -- Taking a key out of a map makes it smaller by one entry at most.
  pub length-delete_ge : (k : K) (m : Map K V) → NodupKeys m → length m ≤ length (delete k m) + 1
  unfolding delete
  length-delete_ge k [] u = omega arith
  length-delete_ge k ((i, w) ∷ m) u = ground (arith, length-delete_ge k m, delete_of_has k m)

  pub length-delete_has :
      (k : K) (m : Map K V) → has k m ≡ true → length (delete k m) + 1 ≤ length m
  unfolding has delete
  length-delete_has k [] h = cc
  length-delete_has k ((i, w) ∷ m) h = ground (arith, length-delete_has k m, length-delete_le k m)

  pub delete-NodupKeys : (k : K) (m : Map K V) → NodupKeys m → NodupKeys (delete k m)
  unfolding delete
  delete-NodupKeys k [] u = tt
  delete-NodupKeys k ((i, w) ∷ m) u = ground (arith, delete-NodupKeys k m, has-delete i k m)

  pub append-NodupKeys :
      (k : K) (v : V) (m : Map K V) → has k m ≡ false → NodupKeys m → NodupKeys (m ++ (k, v) ∷ [])
  unfolding has
  append-NodupKeys k v [] h u = (refl, tt)
  append-NodupKeys k v ((i, w) ∷ m) h u =
      ground (arith, append-NodupKeys k v m, has-append i m ((k, v) ∷ []))

  pub set-NodupKeys : (k : K) (v : V) (m : Map K V) → NodupKeys m → NodupKeys (set k v m)
  unfolding set has
  set-NodupKeys k v [] u = (refl, tt)
  set-NodupKeys k v ((i, w) ∷ m) u = ground (arith, set-NodupKeys k v m, has-set i k v m)
