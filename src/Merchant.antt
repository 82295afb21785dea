-- ===== src/Merchant.antt =====
-- The merchants of linkmint-backend/merchant-onboarding: their status, bank accounts and contracts.
pub mod Status
pub mod Service
pub mod Records
pub mod Lifecycle
pub mod Standing
pub mod Course
pub mod Requests
pub mod Additions
pub mod Calls
mod Tests
