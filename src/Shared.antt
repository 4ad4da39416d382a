-- ===== src/Shared.antt =====
-- packages/shared: the types and checks that every part of the product shares.
mod Tests
pub mod Primitives
pub mod Period
pub mod Allowance
pub mod Event
pub mod Reasons
pub mod PlanView
pub mod Format
