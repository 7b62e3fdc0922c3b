-- ===== src/Duck/Outcome.antt =====
-- `outcome` and `is_game_over` of `DuckBoard`, cope/variants/duck.py.
use cope_chess.Prelude.{
  ℕ, Option, none, some, Bool, not, ◌&&◌, leb, if◌then◌else◌, any, range, enumerate, is_none,
}
use cope_chess.Duck.Board.{pawn, queen, king, Piece, Board, is_piece, has_kind, is_own}
use cope_chess.Duck.Legal.{piece_legal}
use cope_chess.Duck.Moves.{turn_of, last_rank}
use cope_chess.Duck.Key.{repetition_key, times_seen}

-- the members of `chess.Termination`
pub data Termination : Type 0 where
  checkmate stalemate insufficient_material seventyfive_moves fivefold_repetition : Termination
  fifty_moves threefold_repetition variant_win variant_loss variant_draw : Termination

-- `chess.Outcome`: the winner is `some true` for White
pub record Outcome : Type 0 where
  pub termination : Termination
  pub winner : Option Bool

unfoldable pub can_move : Board → Bool
can_move b =
    any
      (λ (s : ℕ × Option Piece).
        is_own b.turn s.1
        && any
            (λ target. piece_legal b (
              turn_of s.0 target
                (if has_kind pawn s.1 && last_rank target then some queen else none) none))
            (range 64))
      (enumerate 0 b.squares)

unfoldable pub outcome : Board → Option Outcome
unfolding can_move
outcome b =
    if not (any (is_piece b.turn king) b.squares)
    then some (record { termination = variant_loss; winner = some (not b.turn) })
    else if not (any (is_piece (not b.turn) king) b.squares)
    then some (record { termination = variant_win; winner = some b.turn })
    else if not (can_move b)
    then some (record { termination = variant_win; winner = some b.turn })
    else if leb 100 b.halfmove_clock
    then some (record { termination = fifty_moves; winner = none })
    else if leb 3 (times_seen (repetition_key b) b.positions)
    then some (record { termination = threefold_repetition; winner = none })
    else none

unfoldable pub is_game_over : Board → Bool
is_game_over b = not (is_none (outcome b))
