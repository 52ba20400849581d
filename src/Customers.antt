-- ===== src/Customers.antt =====
-- The cashier application (customers/).
pub mod Printing
pub mod Checkout
pub mod Orders
