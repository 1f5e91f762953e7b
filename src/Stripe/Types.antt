-- ===== src/Stripe/Types.antt =====
-- The parts of the objects of the Stripe interface that the program reads or writes, and the calls
-- of its client, which are a parameter of the model.
use block_feed_prototype.Prelude.{ℕ, Bool, Option, List, String}
use block_feed_prototype.Promise.{M}

-- `string | T`: an identifier, or the object itself where the request expanded it.
pub data Expandable {ℓ} (T : Type ℓ) : Type ℓ where
  id_of : String → Expandable T
  expanded : T → Expandable T

-- `deleted` is absent on a customer that exists.
pub record Customer : Type 0 where
  pub id : String
  pub deleted : Option Bool

pub data SubscriptionStatus : Type 0 where
  incomplete_expired incomplete canceled past_due : SubscriptionStatus
  trialing active paused unpaid : SubscriptionStatus

-- `Stripe.Metadata`, of which the program reads the key `userId`.
pub record Metadata : Type 0 where
  pub user_id : Option String

pub record Subscription : Type 0 where
  pub id : String
  pub status : SubscriptionStatus
  pub customer : Expandable Customer
  pub metadata : Metadata

-- `Stripe.Checkout.Session.Status | null`
pub data SessionStatus : Type 0 where
  complete expired still_open no_status : SessionStatus

pub record Session : Type 0 where
  pub id : String
  pub status : SessionStatus
  pub customer : Option (Expandable Customer)
  pub subscription : Option (Expandable Subscription)
  pub url : Option String

-- `customer_email` or `customer` of the parameters of a new session.
pub data Payer : Type 0 where
  customer_email : String → Payer
  customer : String → Payer

-- `trial_period_days` and the end behaviour `missing_payment_method`.
pub record Trial : Type 0 where
  pub trial_period_days : ℕ
  pub missing_payment_method : String

-- Parameters that are the same for every session are left out.
pub record SessionParams : Type 0 where
  pub price : String
  pub payer : Payer
  pub success_url : String
  pub cancel_url : String
  pub client_reference_id : String
  pub trial : Option Trial
  pub user_id : String

-- The calls of `Stripe`'s client that the program makes.
pub record Client (W : Type 0) : Type 0 where
  pub retrieve_subscription : String → M W Subscription
  pub retrieve_customer : String → M W Customer
  -- with `expand: ["subscription", "customer"]`
  pub retrieve_session : String → M W Session
  pub create_session : SessionParams → M W Session
  -- `subscriptions.list` for a customer, with a limit
  pub list_subscriptions : String → ℕ → M W (List Subscription)
  -- the URL of a new billing portal session for a customer and a return URL
  pub create_portal_session : String → String → M W String
