-- ===== src/Stripe.antt =====
-- packages/node/providers/stripe
pub mod Types
pub mod Provider
pub mod Resolvers
