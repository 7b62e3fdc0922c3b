-- ===== src/Scheduler/Swiss.antt =====
-- Swiss tournaments of cope/runner/scheduler.py.
pub mod Points
pub mod Pairing
pub mod Colours
pub mod Round
pub mod Advance
