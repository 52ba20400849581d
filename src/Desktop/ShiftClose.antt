-- ===== src/Desktop/ShiftClose.antt =====
-- The acknowledgement of closed shifts by the cloud: desktop/shift_close_sync.py.
pub mod Entries
pub mod Verdict
pub mod Refresh
pub mod Kept
pub mod Rounds
pub mod Calls
pub mod Acked
pub mod Status
pub mod Tests
