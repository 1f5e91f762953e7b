-- ===== src/Checkout/Resolve.antt =====
-- `resolveCheckoutSession`: what the existing checkout session of the user, if any, asks for.
use block_feed_prototype.Prelude.{
  Bool, false, Option, none, some, String, ◌==◌, string_eq, if◌then◌else◌,
}
use block_feed_prototype.Promise.{M, pure, throw, ◌>>=◌}
use block_feed_prototype.Db.Schema.{CheckoutSession}
use block_feed_prototype.Graphql.Errors.{gql_internal_server_error}
use block_feed_prototype.Graphql.Context.{Context}
use block_feed_prototype.Graphql.RequireSubscription.{is_canceled}
use block_feed_prototype.Stripe.Types.{
  Expandable, id_of, expanded, Customer, Subscription, Session, SessionStatus, complete, expired,
  still_open, no_status,
}
use block_feed_prototype.Stripe.Provider.{extract_stripe_customer, extract_stripe_subscription}

pub record Resolved : Type 0 where
  pub client_reference_id : Option String
  pub stripe_customer_id : Option String
  pub url : Option String

abbrev pub empty : Resolved
empty = record { client_reference_id = none; stripe_customer_id = none; url = none }

abbrev pub with_url : String → Resolved
with_url url = record { client_reference_id = none; stripe_customer_id = none; url = some url }

-- `typeof customer === "string" ? customer : customer.id`
abbrev pub customer_id : Expandable Customer → String
customer_id (id_of id) = id
customer_id (expanded customer) = customer.id

abbrev pub customer_id? : Option (Expandable Customer) → Option String
customer_id? none = none
customer_id? (some customer) = some (customer_id customer)

-- A new session replaces the existing one, for a customer that Stripe may know.
abbrev pub renewal : CheckoutSession → Option String → Resolved
renewal existing stripe_customer_id = record {
  client_reference_id = some existing.client_reference_id;
  stripe_customer_id = stripe_customer_id;
  url = none;
}

-- `customer != null && customer.deleted`
abbrev pub is_deleted : Option Customer → Bool
is_deleted none = false
is_deleted (some customer) = elim customer.deleted [ none ↦ false | some deleted ↦ deleted ]

module _ {W Cluster : Type 0} (ctx : Context W Cluster) where
  -- A subscription that was canceled is renewed; for any other the customer portal serves.
  unfoldable pub resolve_subscription : CheckoutSession → Option Subscription → M W Resolved
  resolve_subscription existing none = pure (with_url ctx.env.stripe_customer_portal_url)
  resolve_subscription existing (some sub) =
      if is_canceled sub.status
      then pure (renewal existing (some (customer_id sub.customer)))
      else pure (with_url ctx.env.stripe_customer_portal_url)

  unfoldable pub resolve_customer : CheckoutSession → Session → Option Customer → M W Resolved
  unfolding resolve_subscription
  resolve_customer existing sess customer =
      if is_deleted customer
      then (do
        affected_rows ← ctx.providers.checkout_session.delete (λ r. r.id == existing.id)
        pure empty)
      else (do
        sub ← extract_stripe_subscription ctx.providers.stripe sess
        resolve_subscription existing sub)

  unfoldable pub resolve_status : CheckoutSession → Session → SessionStatus → M W Resolved
  unfolding resolve_customer
  resolve_status existing sess still_open = pure (with_url existing.url)
  resolve_status existing sess expired = pure (renewal existing (customer_id? sess.customer))
  resolve_status existing sess complete = do
    customer ← extract_stripe_customer ctx.providers.stripe sess
    resolve_customer existing sess customer
  resolve_status existing sess no_status =
      throw (gql_internal_server_error "invalid checkout session status: null")

  unfoldable pub resolve_existing : Option CheckoutSession → M W Resolved
  unfolding resolve_status
  resolve_existing none = pure empty
  resolve_existing (some existing) = do
    sess ← ctx.caches.stripe_checkout_sess.get_or_set ctx.user_id existing.session_id
    resolve_status existing sess sess.status

  unfoldable pub resolve_checkout_session : M W Resolved
  unfolding resolve_existing
  resolve_checkout_session = do
    existing ← ctx.providers.checkout_session.find_first (λ r. r.customer_id == ctx.user_id)
    resolve_existing existing
