-- ===== src/Ledger.antt =====
-- The double-entry ledger of linkmint-backend/ledger-python: legs and their validation, the
-- append-only table of entries with posting, reversal and reads.
pub mod Entry
pub mod Postings
pub mod Store
pub mod Rows
pub mod Sums
pub mod Flips
pub mod History
pub mod Audit
pub mod Reversal
pub mod Listing
mod Tests
