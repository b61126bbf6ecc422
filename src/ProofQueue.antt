-- ===== src/ProofQueue.antt =====
-- The proof queue of localbench/proofqueue.py: one open bead for each local route that is not proven.
pub mod Marker
pub mod Planned
pub mod Applied
pub mod Accounts
pub mod Fits
pub mod Chosen
