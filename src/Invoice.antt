-- ===== src/Invoice.antt =====
-- The invoices of linkmint-backend/invoice-subscription: totals, the lifecycle from draft to paid,
-- the events of the chain and the overdue sweeper.
pub mod Model
pub mod Service
pub mod Lifecycle
pub mod Conduct
pub mod Requests
pub mod Finalizing
pub mod Sweep
pub mod History
pub mod Payments
pub mod Calls
pub mod Totals
pub mod Redelivery
pub mod Queries
mod Tests
