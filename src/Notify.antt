-- ===== src/Notify.antt =====
-- The deliveries of linkmint-backend/notification-service: attempts, retries and their end.
pub mod Template
pub mod Delivery
pub mod Intake
pub mod Fanout
pub mod Keys
pub mod Redelivery
pub mod Posting
pub mod Twice
pub mod Enqueued
pub mod Inbox
pub mod Account
pub mod Retries
pub mod Preferences
mod Tests
mod EventTests
