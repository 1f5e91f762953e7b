-- ===== src/Dashboard.antt =====
-- The dashboard of a user, apps/dashboard/src: its page, its forms and its table of webhooks.
pub mod Search
pub mod Paging
pub mod SearchStatus
pub mod Table
pub mod Forms
pub mod Dialogs
