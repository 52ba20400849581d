-- ===== src/Couriers/Dispatch.antt =====
-- The dispatch of delivery orders to couriers: couriers/services.py from `assign` to
-- `advance_status`, and the models that it works on in couriers/models.py.
pub mod Store
pub mod Progress
pub mod Assign
pub mod Pick
pub mod Picked
pub mod Exclusive
pub mod Lifecycle
pub mod Refines
pub mod Calls
pub mod Invariants
pub mod Assigned
pub mod Retry
pub mod Delivery
mod Tests
