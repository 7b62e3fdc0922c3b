-- ===== src/Game.antt =====
-- One game (cope/tournament): its time controls and clocks, and its state.
pub mod TimeControl
pub mod Clock
pub mod Agreement
pub mod Boards
pub mod State
