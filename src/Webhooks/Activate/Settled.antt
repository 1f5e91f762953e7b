-- ===== src/Webhooks/Activate/Settled.antt =====
-- Rows that are done for good: what setting webhooks active keeps of them, and what a run of promises
-- has achieved when every one of them is fulfilled.
use block_feed_prototype.Prelude.{
  ◌≡◌, ◌⊎◌, sym, ap, Bool, true, false, not, ◌&&◌, List, [], ◌∷◌, ◌++◌, String, ◌==◌, string_eq,
  nat_eq, arith, All, in_array, Bool-cases, inl, inr, eq_of_test,
}
use block_feed_prototype.Promise.{M, Result, continue, ok, err, Post, ◌>>=◌}
use block_feed_prototype.Db.Schema.{Webhook}
use block_feed_prototype.Db.Table.{update_rows}
use block_feed_prototype.Webhooks.Ownership.{owned_among}
use block_feed_prototype.Webhooks.Activate.{all_settled}
use block_feed_prototype.Webhooks.Activate.Outcome.{IsFulfilled}

-- A property of rows that setting them active keeps.
abbrev pub Stable : (Webhook → Bool) → Type 0
Stable good = (r : Webhook) → good r ≡ true → good (record r { is_active = 1 }) ≡ true

abbrev pub Every : (Webhook → Bool) → List Webhook → Type 0
Every good rows = All (λ r. good r ≡ true) rows

pub Every-update_rows :
    (good : Webhook → Bool) (p : Webhook → Bool) (rows : List Webhook)
    → Stable good
    → Every good rows
    → Every good (update_rows (λ r. record r { is_active = 1 }) p rows)
Every-update_rows good p [] s h = tt
Every-update_rows good p (r ∷ rows) s h = elim (Bool-cases (p r)) [
  | inl e ↦ rw e (s r h.0, Every-update_rows good p rows s h.1)
  | inr e ↦ rw e (h.0, Every-update_rows good p rows s h.1)
]

-- No webhook of the user with this identifier is inactive.
abbrev pub done : String → String → Webhook → Bool
done user_id id r = not (r.customer_id == user_id && r.is_active == 0 && r.id == id)

pub done-Stable : (user_id id : String) → Stable (done user_id id)
done-Stable user_id id r h = ground arith

in_array-same :
    (id id' : String) (ids : List String) → id == id' ≡ true → in_array id' ids ≡ in_array id ids
in_array-same id id' ids h = ap (λ x. in_array x ids) (sym (eq_of_test id id' h))

done-other :
    (user_id id : String) (ids : List String) (r : Webhook)
    → in_array id ids ≡ true
    → owned_among user_id ids r ≡ false
    → done user_id id r ≡ true
done-other user_id id ids r i e = elim (Bool-cases (r.id == id)) [
  | inl h ↦ ground (arith, in_array-same r.id id ids h)
  | inr h ↦ ground arith
]

pub done-update_rows :
    (user_id id : String) (ids : List String) (rows : List Webhook)
    → in_array id ids ≡ true
    → Every
        (done user_id id)
        (update_rows (λ r. record r { is_active = 1 }) (owned_among user_id ids) rows)
done-update_rows user_id id ids [] i = tt
done-update_rows user_id id ids (r ∷ rows) i = elim (Bool-cases (owned_among user_id ids r)) [
  | inl e ↦ rw e (ground arith, done-update_rows user_id id ids rows i)
  | inr e ↦ rw e (done-other user_id id ids r i e, done-update_rows user_id id ids rows i)
]

module _ {W : Type 0} (rows : W → List Webhook) (good : Webhook → Bool) where
  abbrev pub Keeping : {A : Type 0} → M W A → Type 0
  Keeping t = (w : W) → Every good (rows w) → Every good (rows (t w).1)

  abbrev pub Sets : M W (Unit {0}) → Type 0
  Sets t = (w : W) → Post (t w) (λ _ w'. Every good (rows w'))

  -- One of the promises establishes it, if it is fulfilled.
  abbrev pub SomeSets : List (M W (Unit {0})) → Type 0
  SomeSets [] = ⊥
  SomeSets (t ∷ ts) = Sets t ⊎ SomeSets ts

  pub all_settled-Keeping :
      (ts : List (M W (Unit {0})))
      → All (λ t. Keeping t) ts
      → (w : W) → Every good (rows w)
      → Every good (rows (all_settled ts w).1)
  unfolding all_settled
  all_settled-Keeping [] k w h = h
  all_settled-Keeping (t ∷ ts) k w h = all_settled-Keeping ts k.1 (t w).1 (k.0 w h)

  set_of_fulfilled :
      (r : Result (Unit {0}) × W)
      → Post r (λ _ w'. Every good (rows w'))
      → IsFulfilled r.0
      → Every good (rows r.1)
  set_of_fulfilled (ok a, w) h f = h
  set_of_fulfilled (err e, w) h f = elim f [ ]

  pub all_settled-sets :
      (ts : List (M W (Unit {0})))
      → All (λ t. Keeping t) ts
      → SomeSets ts
      → (w : W) → All IsFulfilled (all_settled ts w).0
      → Every good (rows (all_settled ts w).1)
  unfolding all_settled
  all_settled-sets [] k s w f = elim s [ ]
  all_settled-sets (t ∷ ts) k (inl s) w f =
      all_settled-Keeping ts k.1 (t w).1 (set_of_fulfilled (t w) (s w) f.0)
  all_settled-sets (t ∷ ts) k (inr s) w f = all_settled-sets ts k.1 s (t w).1 f.1

  pub SomeSets-left : (ts us : List (M W (Unit {0}))) → SomeSets ts → SomeSets (ts ++ us)
  SomeSets-left [] us s = elim s [ ]
  SomeSets-left (t ∷ ts) us (inl s) = inl s
  SomeSets-left (t ∷ ts) us (inr s) = inr (SomeSets-left ts us s)

  pub SomeSets-right : (ts us : List (M W (Unit {0}))) → SomeSets us → SomeSets (ts ++ us)
  SomeSets-right [] us s = s
  SomeSets-right (t ∷ ts) us s = inr (SomeSets-right ts us s)

  continue-Keeping :
      {A B : Type 0} (r : Result A × W) (f : A → M W B)
      → Every good (rows r.1)
      → ((a : A) → Keeping (f a))
      → Every good (rows (continue r f).1)
  continue-Keeping (ok a, w) f h k = k a w h
  continue-Keeping (err e, w) f h k = h

  pub Keeping-bind :
      {A B : Type 0} (m : M W A) (f : A → M W B)
      → Keeping m
      → ((a : A) → Keeping (f a))
      → Keeping (m >>= f)
  Keeping-bind m f hm hf w h = continue-Keeping (m w) f (hm w h) hf
