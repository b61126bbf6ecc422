-- ===== src/Presets.antt =====
-- The feature presets of localbench/presets.py: planning, applying, rolling back.
pub mod Values
pub mod Host
pub mod Block
pub mod Registry
pub mod Plan
pub mod Backup
pub mod World
pub mod Apply
pub mod Rollback
