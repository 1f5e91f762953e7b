-- ===== src/StripeWebhook.antt =====
-- packages/node/services/stripe-webhook: the events of Stripe on their way through a Redis stream.
pub mod Events
pub mod Reply
pub mod Producer
pub mod Consumer
pub mod Acknowledged
pub mod Cursor
pub mod Deletion
pub mod Plugin
pub mod Verified
pub mod Queue
pub mod Delivered
pub mod Yields
