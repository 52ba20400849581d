-- ===== src/Couriers/Ledger.antt =====
-- A courier's money: couriers/services.py from `courier_payment_event_key` to `settle`.
pub mod Rows
pub mod Refunds
pub mod Snapshot
pub mod Additive
pub mod Settled
pub mod Share
mod Tests
