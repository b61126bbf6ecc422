-- ===== src/Tests.antt =====
-- Runs of the model on small inputs, and the theorems applied at concrete states.
mod Campaigns
mod Trials
mod Ledger
mod Sweeps
mod Requests
mod Slots
mod Reports
mod Goldens
mod Evidence
mod Queue
mod Switches
mod Families
