-- ===== src/Customers/Orders.antt =====
-- The life of an order before and after it is paid: customers/services/order_service.py.
pub mod Rows
pub mod Parts
pub mod Create
pub mod Edit
pub mod Spelling
pub mod Status
pub mod Kitchen
pub mod Details
pub mod Calls
pub mod Frame
pub mod Guards
pub mod Edits
pub mod Changes
pub mod Touches
pub mod Plain
pub mod Apart
pub mod Canceled
pub mod Sold
pub mod Paid
pub mod Cooked
pub mod Served
pub mod Ready
pub mod Always
pub mod Balanced
pub mod Spelled
pub mod Retried
pub mod Refused
pub mod Promises
pub mod Tests
