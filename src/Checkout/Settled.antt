-- ===== src/Checkout/Settled.antt =====
-- The rows that the transaction of a checkout leaves: how many the user has, and which are gone.
use block_feed_prototype.Prelude.{
  ℕ, suc, ◌≤◌, ◌≡◌, refl, sym, ap, ◌∙◌, Bool, true, false, Option, none, some, List, [], ◌∷◌,
  String, ◌==◌, string_eq, length, length-append, keep, All, arith, eq_refl, eq_of_test, Bool-cases,
  inl, inr,
}
use block_feed_prototype.Db.Schema.{CheckoutSession, sessions_clash}
use block_feed_prototype.Db.Table.{In, update_rows, insert_ignore_row, clashes_with}
use block_feed_prototype.Db.Rows.{keep-append}
use block_feed_prototype.Checkout.Transaction.{NewSession, has_reference, overwrite, new_row}

abbrev pub own : String → CheckoutSession → Bool
own user_id r = r.customer_id == user_id

-- The user has one session at most; none of the others has the old reference.
abbrev pub sessions_of : String → List CheckoutSession → ℕ
sessions_of user_id rows = length (keep (own user_id) rows)

-- The database holds one session of the user, with this URL, and the old reference is gone.
pub record IsSettled (user_id : String) (reference : Option String) (url : String)
    (rows : List CheckoutSession) : Type 0 where
  pub one : sessions_of user_id rows ≤ 1
  pub row : CheckoutSession
  pub held : In row rows
  pub owned : own user_id row ≡ true
  pub has_url : row.url ≡ url
  pub replaced : All (λ r. has_reference reference r ≡ false) rows

pub no_own :
    (user_id : String) (rows : List CheckoutSession) (s : CheckoutSession)
    → sessions_of user_id rows ≤ 0
    → In s rows
    → own user_id s ≡ true
    → ⊥
no_own user_id [] s h i e = i
no_own user_id (x ∷ rows) s h (inl same) e =
    let q : own user_id x ≡ true = rw (← same) e in absurd (omega (arith, rw q at h))
no_own user_id (x ∷ rows) s h (inr i) e = no_own user_id rows s (ground arith) i e

pub alone :
    (user_id : String) (x : CheckoutSession) (rows : List CheckoutSession)
    → own user_id x ≡ true
    → sessions_of user_id (x ∷ rows) ≤ 1
    → sessions_of user_id rows ≤ 0
alone user_id x rows q h = let k : suc (sessions_of user_id rows) ≤ 1 = rw q at h in omega arith

-- Where the user has one row at most, two rows of the user are the same.
pub same_row :
    (user_id : String) (rows : List CheckoutSession) (r s : CheckoutSession)
    → sessions_of user_id rows ≤ 1
    → In r rows
    → In s rows
    → own user_id r ≡ true
    → own user_id s ≡ true
    → r ≡ s
same_row user_id [] r s h i j e f = absurd i
same_row user_id (x ∷ rows) r s h (inl a) (inl b) e f = a ∙ sym b
same_row user_id (x ∷ rows) r s h (inl a) (inr j) e f =
    absurd (no_own user_id rows s (alone user_id x rows (rw (← a) e) h) j f)
same_row user_id (x ∷ rows) r s h (inr i) (inl b) e f =
    absurd (no_own user_id rows r (alone user_id x rows (rw (← b) f) h) i e)
same_row user_id (x ∷ rows) r s h (inr i) (inr j) e f =
    same_row user_id rows r s (ground arith) i j e f

-- To overwrite rows of the user with rows of the user does not change how many there are.
pub sessions_of-overwrite :
    (new : NewSession) (p : CheckoutSession → Bool) (rows : List CheckoutSession)
    → All (λ r. p r ≡ true → own new.customer_id r ≡ true) rows
    → sessions_of new.customer_id (update_rows (overwrite new) p rows)
      ≡ sessions_of new.customer_id rows
sessions_of-overwrite new p [] h = refl
sessions_of-overwrite new p (r ∷ rows) h = elim (Bool-cases (p r)) [
  | inl e ↦
      rw (e, eq_refl new.customer_id, h.0 e)
        (ap (λ n. suc n) (sessions_of-overwrite new p rows h.1))
  | inr e ↦ rw e (ground (arith, sessions_of-overwrite new p rows h.1))
]

pub overwrite-replaced :
    (reference : Option String) (new : NewSession) (rows : List CheckoutSession)
    → has_reference reference (new_row new "") ≡ false
    → All
        (λ r. has_reference reference r ≡ false)
        (update_rows (overwrite new) (has_reference reference) rows)
overwrite-replaced reference new [] h = tt
overwrite-replaced none new (r ∷ rows) h = (refl, overwrite-replaced none new rows h)
overwrite-replaced (some reference) new (r ∷ rows) h =
    (ground arith, overwrite-replaced (some reference) new rows h)

-- If a filter keeps nothing, nothing passes it.
pub kept_none :
    (p : CheckoutSession → Bool) (rows : List CheckoutSession)
    → [] ≡ keep p rows
    → All (λ r. p r ≡ false) rows
kept_none p [] e = tt
kept_none p (r ∷ rows) e = elim (Bool-cases (p r)) [
  | inl q ↦ cc (rw q at e)
  | inr q ↦ (q, kept_none p rows (rw q at e))
]

-- A row that no other is in the way of is the first of its user.
pub no_own_of_clash :
    (new : NewSession) (id : String) (rows : List CheckoutSession)
    → clashes_with sessions_clash (new_row new id) rows ≡ false
    → sessions_of new.customer_id rows ≡ 0
no_own_of_clash new id [] e = refl
no_own_of_clash new id (r ∷ rows) e = ground (arith, no_own_of_clash new id rows)

pub sessions_of-insert :
    (new : NewSession) (id : String) (rows : List CheckoutSession)
    → sessions_of new.customer_id rows ≤ 1
    → sessions_of new.customer_id (insert_ignore_row sessions_clash (new_row new id) rows) ≤ 1
sessions_of-insert new id rows h =
    elim (Bool-cases (clashes_with sessions_clash (new_row new id) rows)) [
      | inl e ↦ rw e h
      | inr e ↦
          let z = no_own_of_clash new id rows e in
          rw
            (
              e,
              keep-append (own new.customer_id) rows (new_row new id ∷ []),
              eq_refl new.customer_id,
              length-append (keep (own new.customer_id) rows) (new_row new id ∷ []),
            )
            (omega arith)
    ]

-- A row of the user is in the way of another.
pub clash_of_own :
    (new : NewSession) (id : String) (rows : List CheckoutSession) (r : CheckoutSession)
    → In r rows
    → own new.customer_id r ≡ true
    → clashes_with sessions_clash (new_row new id) rows ≡ true
clash_of_own new id (x ∷ rows) r (inl same) e =
    let q : own new.customer_id x ≡ true = rw (← same) e in
    ground (arith, eq_of_test x.customer_id new.customer_id q, eq_refl new.customer_id)
clash_of_own new id (x ∷ rows) r (inr i) e = rw (clash_of_own new id rows r i e) (ground arith)
clash_of_own new id [] r i e = absurd i
