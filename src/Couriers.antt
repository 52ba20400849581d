-- ===== src/Couriers.antt =====
-- The courier application (couriers/).
pub mod Dispatch
pub mod Payments
pub mod Tokens
pub mod Ledger
