-- ===== src/Couriers/Payments.antt =====
-- The payments that couriers collect: couriers/payments.py.
pub mod Rows
pub mod Evidence
pub mod Header
pub mod Create
pub mod Refund
pub mod Gateway
pub mod Steps
pub mod Grows
pub mod Terminal
pub mod Calls
pub mod Money
mod Tests
