-- ===== src/Examples.antt =====
-- Concrete inputs for the theorems, and tests of the definitions.
mod Routing
mod Workflow
mod Repair
mod RepairInput
mod Domain
mod Transaction
mod RepairLoop
mod Orchestrator
mod Evaluation
mod Batch
mod Urgency
