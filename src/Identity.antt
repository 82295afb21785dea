-- ===== src/Identity.antt =====
-- The sessions and the organizations of linkmint-backend/identity-service.
pub mod Model
pub mod Sessions
pub mod Lost
pub mod Revoked
pub mod Rotation
pub mod Rbac
pub mod Orgs
pub mod Owners
mod OrgTests
mod Tests
