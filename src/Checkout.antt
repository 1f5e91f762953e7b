-- ===== src/Checkout.antt =====
-- apps/dashboard/src/server/schema/stripe/handlers/create-checkout-session.ts
pub mod Resolve
pub mod Session
pub mod Transaction
pub mod Settled
pub mod Late
pub mod Serial
pub mod Stale
