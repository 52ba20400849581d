-- ===== src/Couriers/Tokens.antt =====
-- The credentials of couriers: couriers/tokens.py.
pub mod Rows
pub mod Claims
pub mod Refresh
pub mod Rotation
pub mod Single
pub mod Once
mod Tests
pub mod Spent
pub mod Login
