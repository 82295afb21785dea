-- ===== src/Compliance.antt =====
-- linkmint-backend/compliance-risk: the risk engine, its service and the KYC records.
pub mod Engine
pub mod Severity
pub mod Model
pub mod Risk
pub mod Kyc
pub mod Calls
pub mod Course
pub mod History
mod Tests
