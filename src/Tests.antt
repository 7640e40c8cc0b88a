-- ===== src/Tests.antt =====
-- The theorems at concrete inputs.
mod Data
mod Enums
mod Lifecycle
mod Messages
mod Histories
mod Admissions
mod Delivery
mod Presence
mod Locators
mod Relay
mod Subscriptions
mod Handles
mod Ledgers
pub mod Readers
pub mod Statuses
pub mod Idref
