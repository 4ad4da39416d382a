-- ===== src/Chain.antt =====
-- packages/chain: accounts of the subscriptions program read from the network, and the
-- transactions that cancel a permission.
pub mod Tests
pub mod Decode
pub mod Revoke
pub mod Read
pub mod Events
pub mod Instructions
pub mod Grant
pub mod Plan
pub mod Subscribe
pub mod History
