-- ===== src/Graphql.antt =====
-- apps/dashboard/src/server/graphql
pub mod Errors
pub mod Context
pub mod RequireSubscription
pub mod RequireAuth
