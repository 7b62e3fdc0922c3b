-- ===== src/Scheduler.antt =====
-- cope/runner/scheduler.py: which games a tournament plays, and what happens when games finish.
pub mod Errors
pub mod Create
pub mod RoundRobin
pub mod Gauntlet
pub mod Results
pub mod Advance
pub mod Swiss
pub mod Knockout
pub mod Start
pub mod LiveRoster
