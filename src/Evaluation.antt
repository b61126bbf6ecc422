-- ===== src/Evaluation.antt =====
-- localbench/evaluation.py: the evidence of evaluation campaigns, and the score of a varied trial.
pub mod Paths
pub mod Evidence
pub mod Campaign
pub mod Manifest
pub mod Json
pub mod Trial
