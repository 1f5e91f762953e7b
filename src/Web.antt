-- ===== src/Web.antt =====
-- The moving parts of the public site, apps/web/src/components.
pub mod Counter
pub mod TypeWriter
pub mod ContactForm
