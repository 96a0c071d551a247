-- ===== src/Tests.antt =====
-- Runs of the theorems on small concrete states.
pub mod Fraud
pub mod Ledgers
pub mod Goals
pub mod Requests
pub mod Edges
pub mod Reports
