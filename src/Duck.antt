-- ===== src/Duck.antt =====
-- Duck chess, cope/variants/duck.py: after each move the player puts the duck on an empty square.
-- Squares are numbered 0 to 63 from a1, rank by rank.
pub mod Board
pub mod Legal
pub mod Key
pub mod Push
pub mod Moves
pub mod Outcome
pub mod Uci
