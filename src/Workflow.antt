-- ===== src/Workflow.antt =====
-- specstyle/workflow: jobs, their events, the state machine and the job store.
pub mod JobModels
pub mod Events
pub mod StateMachine
pub mod JobStore
pub mod Transaction
pub mod Orchestrator
pub mod Batch
