-- ===== src/Repair.antt =====
-- src/specstyle/repair/: the choice of a repair for a rejected artifact, and what counts as progress.
pub mod Scales
pub mod Models
pub mod Requests
pub mod Actions
pub mod Context
pub mod Policies
pub mod Guardrails
pub mod Comparison
pub mod Keys
pub mod History
pub mod Loop
