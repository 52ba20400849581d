-- ===== src/Waiters/Orders.antt =====
-- The waiters' operations on orders and tables: waiters/services/order_service.py.
pub mod Rows
pub mod Create
pub mod Edit
pub mod Status
pub mod Tables
pub mod Calls
pub mod Owned
pub mod Alone
pub mod Others
pub mod Tests
