-- ===== src/Examples.antt =====
-- Concrete worlds, and the theorems at them.
pub mod World
pub mod Caching
pub mod Webhooks
pub mod Pages
pub mod Activation
pub mod Subscription
pub mod Checkout
pub mod StripeEvents
pub mod Resolvers
pub mod Client
pub mod Visits
pub mod Dashboard
pub mod Web
pub mod Shared
pub mod Unsubscribed
pub mod Delivered
