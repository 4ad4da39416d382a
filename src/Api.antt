-- ===== src/Api.antt =====
-- apps/api: the service that reads permissions for the browser, and what guards it.
mod Tests
pub mod RateLimit
pub mod Auth
pub mod Card
pub mod Feed
pub mod Hub
