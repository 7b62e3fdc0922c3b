-- ===== src/Assignments.antt =====
-- The assignments of games to workers, cope/db/repo.py: a worker claims a game, plays it, and gives
-- it back when it fails, is paused or loses its connection.
pub mod Records
pub mod Claim
pub mod Progress
pub mod Reset
pub mod Pause
pub mod Workers
pub mod Invalidate
pub mod Replay
pub mod Abort
pub mod Safe
pub mod Steps
pub mod Fencing
pub mod Rows
pub mod Fresh
pub mod Resume
