-- ===== src/Scheduler/Knockout.antt =====
-- Knockout tournaments of cope/runner/scheduler.py.
pub mod Bracket
pub mod Round
pub mod Resolve
pub mod Advance
