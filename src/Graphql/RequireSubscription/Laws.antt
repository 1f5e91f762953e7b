-- ===== src/Graphql/RequireSubscription/Laws.antt =====
-- When a user passes the subscription check, and what the check leaves alone.
use block_feed_prototype.Prelude.{
  Bool, Bool-cases, inl, inr, false, ◌≡◌, refl, ◌⊎◌, ◌↔◌, Option, Option-cases, eq_of_test, All,
  subst, List, none, some, String, ◌==◌, string_eq, arith,
}
use block_feed_prototype.Promise.{
  ok, err, OnOk, OnOk-bind, OnOk-any, OnOk-map, Keeps, Keeps-bind, Keeps-pure, Keeps-throw,
}
use block_feed_prototype.Caching.Types.{AsyncCallbackCache}
use block_feed_prototype.Db.Schema.{CheckoutSession, sessions_clash}
use block_feed_prototype.Db.Table.{Table, IsTable, In, Found}
use block_feed_prototype.Db.Rows.{In-All}
use block_feed_prototype.Graphql.Errors.{gql_not_subscribed_error}
use block_feed_prototype.Stripe.Types.{
  Customer, complete, trialing, active, id_of, Subscription, SubscriptionStatus, Session, Client,
  expanded,
}
use block_feed_prototype.Stripe.Provider.{extract_stripe_customer, extract_stripe_subscription}
use block_feed_prototype.Graphql.RequireSubscription.{
  check_session, check_customer, check_subscription, check_api_session, require_stripe_subscription,
  is_complete,
}

abbrev pub IsUsable : SubscriptionStatus → Type 0
IsUsable s = (s ≡ trialing) ⊎ (s ≡ active)

module _ {W : Type 0} (stripe : Client W) where
  -- A session whose customer and subscription are expanded passes the check with a subscription
  -- exactly if it is complete, its customer is not deleted, the subscription is its own and is
  -- trialing or active. Whether it passes or not, the check changes nothing.
  pub check_session_iff :
      (sess : Session) (customer : Customer) (sub got : Subscription)
      → sess.customer ≡ some (expanded customer)
      → sess.subscription ≡ some (expanded sub)
      → (w : W)
      → (((check_session stripe sess w).0 ≡ ok got) ↔ (
          (sess.status ≡ complete) × (customer.deleted ≡ none) × IsUsable sub.status × (got ≡ sub)))
        × ((check_session stripe sess w).1 ≡ w)
  unfolding check_session
  check_session_iff sess customer sub got c s w = ground arith

  check_session-ok :
      (sess : Session) (w : W) → OnOk (check_session stripe sess w).0 (λ sub. IsUsable sub.status)
  unfolding check_session
  check_session-ok sess w = ground arith

-- The Stripe calls of the check leave a view of the world alone.
pub record ReadsStripe {W X : Type 0} (view : W → X) (stripe : Client W) : Type 0 where
  pub customer : (id : String) → Keeps view (stripe.retrieve_customer id)
  pub subscription : (id : String) → Keeps view (stripe.retrieve_subscription id)

module _ {W X : Type 0} (view : W → X) (stripe : Client W) (reads : ReadsStripe view stripe) where
  pub extract_stripe_customer-Keeps :
      (sess : Session) → Keeps view (extract_stripe_customer stripe sess)
  unfolding extract_stripe_customer
  extract_stripe_customer-Keeps sess w = elim (Option-cases sess.customer) [
    | inl e ↦ rw e refl
    | inr (id_of id, e) ↦ rw e (
        Keeps-bind view (stripe.retrieve_customer id) _ (reads.customer id)
          (λ c. Keeps-pure view (some c)) w)
    | inr (expanded c, e) ↦ rw e refl
  ]

  pub extract_stripe_subscription-Keeps :
      (sess : Session) → Keeps view (extract_stripe_subscription stripe sess)
  unfolding extract_stripe_subscription
  extract_stripe_subscription-Keeps sess w = elim (Option-cases sess.subscription) [
    | inl e ↦ rw e refl
    | inr (id_of id, e) ↦ rw e (
        Keeps-bind view (stripe.retrieve_subscription id) _ (reads.subscription id)
          (λ c. Keeps-pure view (some c)) w)
    | inr (expanded c, e) ↦ rw e refl
  ]

  check_subscription-Keeps : (o : Option Subscription) → Keeps view (check_subscription o)
  unfolding check_subscription
  check_subscription-Keeps o w = ground arith

  check_customer-Keeps :
      (sess : Session) (o : Option Customer) → Keeps view (check_customer stripe sess o)
  unfolding check_customer
  check_customer-Keeps sess none w = refl
  check_customer-Keeps sess (some c) w = elim (Option-cases c.deleted) [
    | inl e ↦ rw e (
        Keeps-bind view (extract_stripe_subscription stripe sess) check_subscription
          (extract_stripe_subscription-Keeps sess) check_subscription-Keeps w)
    | inr (d, e) ↦ rw e refl
  ]

  pub check_session-Keeps : (sess : Session) → Keeps view (check_session stripe sess)
  unfolding check_session
  check_session-Keeps sess w = elim (Bool-cases (is_complete sess.status)) [
    | inl e ↦ rw e (
        Keeps-bind view (extract_stripe_customer stripe sess) (check_customer stripe sess)
          (extract_stripe_customer-Keeps sess) (check_customer-Keeps sess) w)
    | inr e ↦ rw e refl
  ]

module _ {W : Type 0} (cache : AsyncCallbackCache W Session String) (stripe : Client W)
    (checkout_session : Table W CheckoutSession) where
  -- The check only reads: it changes no view of the world that the query, the cache and the Stripe
  -- calls leave alone, whether the user passes or not.
  pub require_stripe_subscription-Keeps :
      {X : Type 0} (view : W → X)
      → ReadsStripe view stripe
      → ((key id : String) → Keeps view (cache.get_or_set key id))
      → ((p : CheckoutSession → Bool) → Keeps view (checkout_session.find_first p))
      → (user_id : String)
      → Keeps view (require_stripe_subscription cache stripe checkout_session user_id)
  unfolding require_stripe_subscription
  require_stripe_subscription-Keeps view reads caches finds user_id =
      Keeps-bind view (checkout_session.find_first (λ r. r.customer_id == user_id))
        (check_api_session cache stripe user_id) (finds _) check
    where
      check : (o : Option CheckoutSession) → Keeps view (check_api_session cache stripe user_id o)
      check none = Keeps-throw Subscription view (gql_not_subscribed_error "user is not subscribed")
      check (some row) =
          Keeps-bind view (cache.get_or_set user_id row.session_id) (check_session stripe)
            (caches user_id row.session_id) (check_session-Keeps view stripe reads)

  module _ (rows : W → List CheckoutSession)
      (table : IsTable checkout_session rows sessions_clash) where
    abbrev pub Passed : String → W → Subscription → Type 0
    Passed user_id w sub =
        IsUsable sub.status
        × ((row : CheckoutSession) × In row (rows w) × (row.customer_id ≡ user_id))

    check_api_session-Passed :
        (user_id : String) (w : W) (o : Option CheckoutSession) (w' : W)
        → Found (λ r. r.customer_id == user_id) (rows w) o
        → OnOk (check_api_session cache stripe user_id o w').0 (Passed user_id w)
    unfolding check_api_session
    check_api_session-Passed user_id w none w' h = tt
    check_api_session-Passed user_id w (some row) w' h =
        OnOk-bind (λ _. Unit {0}) (Passed user_id w) (cache.get_or_set user_id row.session_id)
          (check_session stripe) w' (OnOk-any _)
          (λ sess w''. λ _.
            OnOk-map (λ s. IsUsable s.status) (Passed user_id w) _
              (λ sub u. (u, (row, h.0, eq_of_test row.customer_id user_id h.1)))
              (check_session-ok stripe sess w''))

    -- Nobody gets past the check but a user for whom the database holds a checkout session, with a
    -- subscription that is trialing or active.
    pub require_stripe_subscription_sound :
        (user_id : String) (w : W)
        → OnOk
            (require_stripe_subscription cache stripe checkout_session user_id w).0
            (Passed user_id w)
    unfolding require_stripe_subscription
    require_stripe_subscription_sound user_id w =
        OnOk-bind (Found (λ r. r.customer_id == user_id) (rows w)) (Passed user_id w)
          (checkout_session.find_first (λ r. r.customer_id == user_id))
          (check_api_session cache stripe user_id) w
          (table.find_first_value (λ r. r.customer_id == user_id) w)
          (check_api_session-Passed user_id w)

    -- A user for whom the database holds no checkout session is told so, unless the query fails.
    pub require_stripe_subscription_unknown :
        (user_id : String) (w : W) (o : Option CheckoutSession)
        → All (λ r. (r.customer_id == user_id) ≡ false) (rows w)
        → (checkout_session.find_first (λ r. r.customer_id == user_id) w).0 ≡ ok o
        → (require_stripe_subscription cache stripe checkout_session user_id w).0
          ≡ err (gql_not_subscribed_error "user is not subscribed")
    unfolding require_stripe_subscription
    require_stripe_subscription_unknown user_id w none h e = ground arith
    require_stripe_subscription_unknown user_id w (some row) h e =
        let (i, q) =
          subst (λ r. OnOk r (Found (λ r. r.customer_id == user_id) (rows w))) e
            (table.find_first_value (λ r. r.customer_id == user_id) w) in
        cc (In-All (λ r. (r.customer_id == user_id) ≡ false) (rows w) h i, q)
