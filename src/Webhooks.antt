-- ===== src/Webhooks.antt =====
-- apps/dashboard/src/server/schema/webhooks
pub mod Inputs
pub mod FindOne
pub mod FindMany
pub mod Create
pub mod Update
pub mod Remove
pub mod Ownership
pub mod Created
pub mod Activate
pub mod Resolvers
pub mod Guarded
pub mod Limits
