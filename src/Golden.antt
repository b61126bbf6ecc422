-- ===== src/Golden.antt =====
-- The goldens of localbench/golden.py.
pub mod Pins
pub mod Document
pub mod Arms
