-- ===== src/Stripe/Resolvers.antt =====
-- apps/dashboard/src/server/schema/stripe/resolvers.ts, its handlers `subscription.ts` and
-- `create-billing-portal-session.ts`, and the handler of schema/blockchains.
use block_feed_prototype.Prelude.{true, String, List}
use block_feed_prototype.Promise.{M, ◌>>=◌, pure}
use block_feed_prototype.Db.Schema.{Blockchain}
use block_feed_prototype.Stripe.Types.{Subscription, SubscriptionStatus}
use block_feed_prototype.Graphql.Context.{Context, require_subscription}
use block_feed_prototype.Checkout.Resolve.{customer_id}

pub record StripeSubscription : Type 0 where
  pub id : String
  pub status : SubscriptionStatus

module _ {W Cluster : Type 0} (ctx : Context W Cluster) where
  unfoldable pub billing_portal_handler : Subscription → M W String
  billing_portal_handler subscription =
      ctx.providers.stripe.create_portal_session (customer_id subscription.customer)
        ctx.env.stripe_billing_portal_return_url

  unfoldable pub create_billing_portal_session : M W String
  unfolding billing_portal_handler
  create_billing_portal_session = do
    subscription ← require_subscription ctx
    billing_portal_handler subscription

  unfoldable pub stripe_subscription : M W StripeSubscription
  stripe_subscription = do
    subscription ← require_subscription ctx
    pure (record { id = subscription.id; status = subscription.status })

  unfoldable pub blockchains : M W (List Blockchain)
  blockchains = ctx.providers.blockchain.find_many (λ b. true)
