-- ===== src/Reconcile.antt =====
-- src/reconcile/: decisions of the daemon as pure functions of what it observed.
pub mod Delivery
pub mod Presence
pub mod Subscriptions
