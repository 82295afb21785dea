-- ===== src/Idempotency.antt =====
-- The library linkmint-backend/idempotency-python, by which requests and events take effect once.
pub mod Redis
pub mod Store
pub mod Reservations
pub mod Consumer
pub mod Once
mod Tests
