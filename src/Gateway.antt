-- ===== src/Gateway.antt =====
-- localbench/gateway.py: the loopback gateway in front of Ollama and its ledger of residency leases.
pub mod Store
pub mod Routes
pub mod Relay
pub mod Handler
pub mod Reports
pub mod Probe
pub mod Admission
pub mod Completion
pub mod Residency
pub mod Policy
pub mod Safety
