-- ===== src/Verification.antt =====
-- specstyle/verification: rules, results, reports, and the routing of an artifact.
pub mod RuleModels
pub mod Reports
pub mod Routing
