-- ===== src/Execution.antt =====
-- Operations and the jobs that they share, cope/domains/execution/admission.py.
pub mod Cancel
pub mod Shared
pub mod Settling
pub mod Complete
