-- ===== src/Caching/Lru/Window.antt =====
-- The most recently used entries of a history of uses, which never forgets.
use block_feed_prototype.Prelude.{
  ℕ, ◌≤◌, ◌≡◌, refl, sym, ◌∙◌, inl, inr, true, false, [], ◌∷◌, ◌++◌, String, arith, ltb, Bool-cases,
  length, length-append, if◌then◌else◌, string_eq,
}
use block_feed_prototype.Js.Map
use block_feed_prototype.Js.Map.{Map, NodupKeys}

module _ {ℓ} {V : Type ℓ} where
  -- A use of the key: its entry goes to the end.
  abbrev pub touch : String → V → Map String V → Map String V
  touch k v h = Map.delete k h ++ (k, v) ∷ []

  -- The last `n` entries.
  unfoldable pub recent : ℕ → Map String V → Map String V
  recent n [] = []
  recent n (e ∷ h) = if ltb (length h) n then e ∷ h else recent n h

  pub recent_of_length-le : (n : ℕ) (h : Map String V) → length h ≤ n → recent n h ≡ h
  unfolding recent
  recent_of_length-le n [] _ = refl
  recent_of_length-le n (e ∷ h) le = ground arith

  pub length-recent-le : (n : ℕ) (h : Map String V) → length (recent n h) ≤ n
  unfolding recent
  length-recent-le n [] = omega arith
  length-recent-le n (e ∷ h) = ground (arith, length-recent-le n h)

  pub recent_cons :
      (n : ℕ) (e : String × V) (h : Map String V) → n ≤ length h → recent n (e ∷ h) ≡ recent n h
  unfolding recent
  recent_cons n e h le = ground arith

  has-recent :
      (k : String) (n : ℕ) (h : Map String V) → Map.has k h ≡ false → Map.has k (recent n h) ≡ false
  unfolding recent Map.has
  has-recent k n [] e = refl
  has-recent k n (x ∷ h) e = ground (arith, has-recent k n h)

  pub recent-NodupKeys : (n : ℕ) (h : Map String V) → NodupKeys h → NodupKeys (recent n h)
  unfolding recent
  recent-NodupKeys n [] u = tt
  recent-NodupKeys n (e ∷ h) u = ground (arith, recent-NodupKeys n h)

  pub touch-NodupKeys :
      (k : String) (v : V) (h : Map String V) → NodupKeys h → NodupKeys (touch k v h)
  touch-NodupKeys k v h u =
      Map.append-NodupKeys k v (Map.delete k h) (rw Map.has-delete (ground arith))
        (Map.delete-NodupKeys k h u)

  pub length-touch-has :
      (k : String) (v : V) (h : Map String V) → Map.has k h ≡ true → length (touch k v h) ≤ length h
  length-touch-has k v h e =
      omega (arith, length-append (Map.delete k h) ((k, v) ∷ []), Map.length-delete_has k h e)

  -- An entry that is older than the last `n` does not come back by a use.
  recent-touch-cons :
      (n : ℕ) (k : String) (v : V) (e : String × V) (h : Map String V)
      → NodupKeys h
      → n ≤ length h
      → recent n (touch k v (e ∷ h)) ≡ recent n (touch k v h)
  unfolding Map.delete
  recent-touch-cons n k v e h u le = ground (
    arith,
    recent_cons n e (touch k v h),
    length-append (Map.delete k h) ((k, v) ∷ []),
    Map.length-delete_ge k h u,
  )

  -- To use a key and keep `n` entries, the last `n` entries are all that matter.
  pub recent-touch-recent :
      (n : ℕ) (k : String) (v : V) (h : Map String V)
      → NodupKeys h
      → recent n (touch k v (recent n h)) ≡ recent n (touch k v h)
  unfolding recent
  recent-touch-recent n k v [] _ = refl
  recent-touch-recent n k v (e ∷ h) u = elim (Bool-cases (ltb (length h) n)) [
    | inl short ↦ rw short refl
    | inr long ↦
        rw long
          (recent-touch-recent n k v h u.1 ∙ sym (recent-touch-cons n k v e h u.1 (ground arith)))
  ]
