-- ===== src/Examples.antt =====
-- The theorems at concrete tournaments.
mod Data
mod Schedules
mod Swiss
mod Knockout
mod Starting
mod Games
mod Openings
mod Duck
mod Assignments
mod Forms
mod Turns
mod Execution
mod Permissions
