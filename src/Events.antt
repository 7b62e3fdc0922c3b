-- ===== src/Events.antt =====
-- Events around tournaments (cope/events): what the scheduler asks of them.
pub mod Hooks
pub mod Odds
