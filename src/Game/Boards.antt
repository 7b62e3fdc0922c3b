-- ===== src/Game/Boards.antt =====
-- The chess boards that cope/tournament/game_state.py works on: python-chess's and those of Duck chess.
use cope_chess.Prelude.{ℕ, List, Option, Bool}

-- `chess.Termination` and `chess.Outcome`
pub data BoardTermination : Type 0 where
  checkmate stalemate insufficient_material seventyfive_moves fivefold_repetition fifty_moves
        threefold_repetition :
      BoardTermination
  variant_win variant_loss variant_draw : BoardTermination

pub record BoardOutcome : Type 0 where
  pub termination : BoardTermination
  pub winner : Option Bool

-- the methods of a board that the game state uses; `duck_outcome` is `outcome()` of a `DuckBoard`, and
-- the texts of a position are its key
pub record Boards : Type 1 where
  pub Board : Type 0
  pub Move : Type 0
  pub Key : Type 0
  pub same_key : Key → Key → Bool
  pub turn : Board → Bool
  pub root : Board → Board
  pub move_stack : Board → List Move
  pub push : Move → Board → Board
  pub position_key : Board → Key
  pub is_duck : Board → Bool
  pub duck_outcome : Board → Option BoardOutcome
  pub missing_king : Board → Bool
  pub is_variant_loss : Board → Bool
  pub is_variant_win : Board → Bool
  pub is_variant_draw : Board → Bool
  pub is_checkmate : Board → Bool
  pub is_insufficient_material : Board → Bool
  pub is_stalemate : Board → Bool
  pub is_seventyfive_moves : Board → Bool
  pub halfmove_clock : Board → ℕ
  pub can_claim_fifty_moves : Board → Bool
  pub has_insufficient_material : Bool → Board → Bool
