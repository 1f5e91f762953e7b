-- ===== src/Graphql/Context.antt =====
-- apps/dashboard/src/server/graphql/types.ts and env.ts: what a resolver receives, restricted to
-- what the handlers use, and the sources of randomness of `crypto`.
use block_feed_prototype.Prelude.{ℕ, Bool, List, String, Option}
use block_feed_prototype.Promise.{M}
use block_feed_prototype.Caching.Types.{AsyncCallbackCache, CallbackCache}
use block_feed_prototype.Caching.Lru.Defs.{Nullable}
use block_feed_prototype.Db.Schema.{Blockchain, CheckoutSession, Webhook}
use block_feed_prototype.Db.Table.{Table}
use block_feed_prototype.Stripe.Types.{Client, Session, Subscription}
use block_feed_prototype.Graphql.RequireSubscription.{require_stripe_subscription}

-- The user of `clerk`, of whom the program reads the primary address.
pub record ClerkUser : Type 0 where
  pub primary_email_address : Option String

pub record Providers (W : Type 0) : Type 0 where
  pub stripe : Client W
  pub blockchain : Table W Blockchain
  pub checkout_session : Table W CheckoutSession
  pub webhook : Table W Webhook
  -- `query.webhook.findMany` with `with: { blockchain: true }`
  pub webhook_with_blockchain : (Webhook → Bool) → M W (List (Webhook × Blockchain))

-- `Cluster` stands for a connection to a Redis cluster, kept under its URL.
pub record Caches (W Cluster : Type 0) : Type 0 where
  pub stripe_checkout_sess : AsyncCallbackCache W Session String
  pub clerk_user : AsyncCallbackCache W ClerkUser String
  pub redis_cluster_conn : CallbackCache W (Nullable Cluster) String

pub record StripeEnv : Type 0 where
  pub stripe_price_id : String
  pub stripe_checkout_success_url : String
  pub stripe_checkout_cancel_url : String
  pub stripe_billing_portal_return_url : String
  pub stripe_customer_portal_url : String

pub record Crypto (W : Type 0) : Type 0 where
  pub random_uuid : M W String
  pub random_int : ℕ → ℕ → M W ℕ

pub record Context (W Cluster : Type 0) : Type 0 where
  pub providers : Providers W
  pub caches : Caches W Cluster
  pub env : StripeEnv
  pub crypto : Crypto W
  pub user_id : String

module _ {W Cluster : Type 0} (ctx : Context W Cluster) where
  -- What most resolvers do first.
  abbrev pub require_subscription : M W Subscription
  require_subscription =
      require_stripe_subscription ctx.caches.stripe_checkout_sess ctx.providers.stripe
        ctx.providers.checkout_session ctx.user_id
