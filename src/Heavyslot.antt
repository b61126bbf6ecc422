-- ===== src/Heavyslot.antt =====
-- The heavy-job slot of localbench/heavyslot.py.
pub mod Slot
pub mod Admission
pub mod Queue
