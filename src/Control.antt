-- ===== src/Control.antt =====
-- The control plane, control-api/src/main.rs.
pub mod Error
pub mod Table
pub mod Nodes
pub mod Reports
pub mod NodeApi
pub mod Tasks
pub mod Intent
pub mod Ticket
pub mod Policy
