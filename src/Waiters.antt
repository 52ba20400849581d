-- ===== src/Waiters.antt =====
-- The waiters' part of the till (waiters/).
pub mod Orders
