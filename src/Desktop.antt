-- ===== src/Desktop.antt =====
-- The desktop host of the till (desktop/).
pub mod ShiftClose
