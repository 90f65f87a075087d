-- ===== src/Workflow/Transaction.antt =====
-- src/specstyle/workflow/_job_store_transaction.py and the primitives of
-- src/specstyle/workflow/_job_store_fs.py that it calls, on one job's directory under its lock.
pub mod Directory
pub mod Runs
pub mod Reading
pub mod Writing
pub mod Publishing
pub mod Clean
pub mod Commit
pub mod Triples
pub mod Places
pub mod Landings
pub mod Contents
pub mod Cleaning
pub mod Marking
pub mod Committing
pub mod Beginning
pub mod Atomic
pub mod Outcomes
