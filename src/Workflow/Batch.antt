-- ===== src/Workflow/Batch.antt =====
-- The formal production batch of src/specstyle/workflow/: its cohort, its run and its journal.
pub mod Cohort
pub mod Run
pub mod Protocol
pub mod Reasons
pub mod Approved
