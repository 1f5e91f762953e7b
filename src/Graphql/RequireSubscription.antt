-- ===== src/Graphql/RequireSubscription.antt =====
-- apps/dashboard/src/server/graphql/middleware/require-subscription.middleware.ts, in stages: each
-- check throws or hands over to the next.
pub mod Laws
use block_feed_prototype.Prelude.{
  Bool, true, false, ◌||◌, ◌&&◌, not, Option, none, some, String, ◌==◌, string_eq, if◌then◌else◌,
}
use block_feed_prototype.Promise.{M, pure, throw, ◌>>=◌}
use block_feed_prototype.Caching.Types.{AsyncCallbackCache}
use block_feed_prototype.Db.Schema.{CheckoutSession}
use block_feed_prototype.Db.Table.{Table}
use block_feed_prototype.Graphql.Errors.{
  gql_not_subscribed_error, gql_invalid_subscription_error, gql_internal_server_error,
}
use block_feed_prototype.Stripe.Types.{
  Customer, SessionStatus, complete, SubscriptionStatus, canceled, trialing, active, Subscription,
  Session, Client,
}
use block_feed_prototype.Stripe.Provider.{extract_stripe_customer, extract_stripe_subscription}

abbrev pub is_complete : SessionStatus → Bool
is_complete complete = true
is_complete _ = false

abbrev pub is_canceled : SubscriptionStatus → Bool
is_canceled canceled = true
is_canceled _ = false

abbrev is_trialing : SubscriptionStatus → Bool
is_trialing trialing = true
is_trialing _ = false

abbrev is_active : SubscriptionStatus → Bool
is_active active = true
is_active _ = false

-- `customer.deleted != null || customer.deleted`
abbrev seen_deleted : Option Bool → Bool
seen_deleted none = false
seen_deleted (some deleted) = true || deleted

unfoldable pub check_subscription : {W : Type 0} → Option Subscription → M W Subscription
check_subscription none =
    throw (gql_internal_server_error "could not obtain subscription from session")
check_subscription (some sub) =
    if is_canceled sub.status
    then throw (gql_not_subscribed_error "user has canceled their subscription")
    else if not (is_trialing sub.status) && not (is_active sub.status)
    then throw (gql_invalid_subscription_error "invalid subscription")
    else pure sub

unfoldable pub check_customer :
    {W : Type 0} → Client W → Session → Option Customer → M W Subscription
unfolding check_subscription extract_stripe_subscription
check_customer stripe sess none =
    throw (gql_internal_server_error "could not obtain customer from session")
check_customer stripe sess (some customer) =
    if seen_deleted customer.deleted
    then throw (gql_not_subscribed_error "user has been deleted and must subscribe again")
    else do sub ← extract_stripe_subscription stripe sess; check_subscription sub

unfoldable pub check_session : {W : Type 0} → Client W → Session → M W Subscription
unfolding check_customer extract_stripe_customer
check_session stripe sess =
    if not (is_complete sess.status)
    then throw (gql_not_subscribed_error "user must complete checkout session")
    else do customer ← extract_stripe_customer stripe sess; check_customer stripe sess customer

module _ {W : Type 0} (cache : AsyncCallbackCache W Session String) (stripe : Client W) where
  unfoldable pub check_api_session : String → Option CheckoutSession → M W Subscription
  unfolding check_session
  check_api_session user_id none = throw (gql_not_subscribed_error "user is not subscribed")
  check_api_session user_id (some api_sess) = do
    sess ← cache.get_or_set user_id api_sess.session_id
    check_session stripe sess

  unfoldable pub require_stripe_subscription : Table W CheckoutSession → String → M W Subscription
  unfolding check_api_session
  require_stripe_subscription checkout_session user_id = do
    api_sess ← checkout_session.find_first (λ r. r.customer_id == user_id)
    check_api_session user_id api_sess
