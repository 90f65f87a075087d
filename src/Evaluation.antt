-- ===== src/Evaluation.antt =====
-- src/specstyle/evaluation/: when an arm of the formal evaluation may stop.
pub mod StopContract
