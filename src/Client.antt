-- ===== src/Client.antt =====
-- apps/dashboard/src/client: what the pages do with an error of the GraphQL interface.
pub mod Errors
pub mod Retry
pub mod Access
pub mod Requests
pub mod Middleware
pub mod Unsubscribed
