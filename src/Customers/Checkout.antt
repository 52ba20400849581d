-- ===== src/Customers/Checkout.antt =====
-- Settling an order at the till: `mark_as_paid` of customers/services/order_service.py with the
-- checks of its request.
pub mod Request
pub mod Orders
pub mod Pay
pub mod Settled
pub mod Given
pub mod Rows
pub mod Frozen
pub mod Balance
pub mod Replay
pub mod Dominant
pub mod Sound
mod Tests
