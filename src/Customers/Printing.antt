-- ===== src/Customers/Printing.antt =====
-- The receipt-print queue: customers/services/print_service.py over the models of
-- customers/models.py.
pub mod Jobs
pub mod Queue
pub mod Unique
pub mod Rows
pub mod Passes
pub mod Granted
pub mod Printed
mod Tests
