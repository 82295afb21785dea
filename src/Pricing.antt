-- ===== src/Pricing.antt =====
-- The quotes of linkmint-backend/fee-pricing-service.
pub mod Quote
pub mod Shares
pub mod Rates
pub mod Service
pub mod Issuing
pub mod Requests
pub mod Invoicing
pub mod Weights
pub mod Stamps
pub mod Books
pub mod Grouping
pub mod Billing
pub mod Accounting
mod RequestTests
mod InvoiceTests
mod Tests
