-- ===== src/PayLink.antt =====
-- The PayLinks of linkmint-backend/paylink-service: creation behind the compliance check, settlement
-- read from the chain, cancellation, and the nonces of the service's transactions.
pub mod Model
pub mod Chain
pub mod Service
pub mod Settle
pub mod Lifecycle
pub mod Validity
pub mod Course
pub mod Requests
pub mod Settlements
pub mod Nonces
pub mod Truth
pub mod Refusal
pub mod Calls
mod Tests
