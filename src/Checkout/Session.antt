-- ===== src/Checkout/Session.antt =====
-- The handler: an existing URL, or a new session at Stripe that is then recorded.
use block_feed_prototype.Prelude.{Option, none, some, String}
use block_feed_prototype.Promise.{M, pure, throw, ◌>>=◌}
use block_feed_prototype.Graphql.Errors.{gql_internal_server_error, gql_bad_request_error}
use block_feed_prototype.Graphql.Context.{Context}
use block_feed_prototype.Stripe.Types.{
  Payer, customer_email, customer, Trial, SessionParams, Session,
}
use block_feed_prototype.Checkout.Resolve.{Resolved, resolve_checkout_session}
use block_feed_prototype.Checkout.Transaction.{record_session}

abbrev pub payer_of : String → Option String → Payer
payer_of email none = customer_email email
payer_of email (some stripe_customer_id) = customer stripe_customer_id

-- A free trial for those whom Stripe does not know.
abbrev pub trial_of : Option String → Option Trial
trial_of none = some (record { trial_period_days = 7; missing_payment_method = "cancel" })
trial_of (some stripe_customer_id) = none

-- `transaction` runs a body in a transaction of the database.
module _ {W Cluster : Type 0} (ctx : Context W Cluster)
    (transaction : M W String → M W String) where
  unfoldable pub session_params : String → String → Resolved → SessionParams
  session_params email client_reference_id result = record {
    price = ctx.env.stripe_price_id;
    payer = payer_of email result.stripe_customer_id;
    success_url = ctx.env.stripe_checkout_success_url;
    cancel_url = ctx.env.stripe_checkout_cancel_url;
    client_reference_id = client_reference_id;
    trial = trial_of result.stripe_customer_id;
    user_id = ctx.user_id;
  }

  unfoldable pub record_created : Resolved → String → Session → Option String → M W String
  record_created result client_reference_id session none =
      throw (gql_internal_server_error "failed to get checkout session URL")
  record_created result client_reference_id session (some url) = transaction (
      record_session ctx.providers.checkout_session ctx.crypto.random_uuid result (record {
        customer_id = ctx.user_id;
        client_reference_id = client_reference_id;
        session_id = session.id;
        url = url;
      }))

  unfoldable pub create_session : Resolved → Option String → M W String
  unfolding session_params record_created
  create_session result none =
      throw (gql_bad_request_error "user has no primary email address linked to their account")
  create_session result (some email) = do
    client_reference_id ← ctx.crypto.random_uuid
    session ← ctx.providers.stripe.create_session (session_params email client_reference_id result)
    record_created result client_reference_id session session.url

  unfoldable pub checkout : Resolved → Option String → M W String
  unfolding create_session
  checkout result (some url) = pure url
  checkout result none = do
    user ← ctx.caches.clerk_user.get_or_set ctx.user_id ctx.user_id
    create_session result user.primary_email_address

  unfoldable pub handler : M W String
  unfolding resolve_checkout_session checkout
  handler = do result ← resolve_checkout_session ctx; checkout result result.url
