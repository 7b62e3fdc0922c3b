-- ===== src/Duck/Moves.antt =====
-- `DuckLegalMoves.__iter__` of cope/variants/duck.py.
pub mod Legality
use cope_chess.Prelude.{
  ℕ, ◌/◌, List, [], ◌∷◌, ◌++◌, Option, none, some, Bool, ◌&&◌, ◌||◌, ◌==◌, if◌then◌else◌, keep, map,
  flat_map, range, enumerate,
}
use cope_chess.Duck.Board.{
  Kind, pawn, knight, bishop, rook, queen, king, Piece, DuckTurn, Board, piece_at, has_kind, is_own,
  missing_king,
}
use cope_chess.Duck.Legal.{piece_legal, is_legal}

-- `target // 8 in (0, 7)`
abbrev pub last_rank : ℕ → Bool
last_rank target = target / 8 == 0 || target / 8 == 7

unfoldable pub promotions : Option Piece → ℕ → List (Option Kind)
promotions piece target =
    if has_kind pawn piece && last_rank target
    then some knight ∷ some bishop ∷ some rook ∷ some queen ∷ []
    else none ∷ []

abbrev pub turn_of : ℕ → ℕ → Option Kind → Option ℕ → DuckTurn
turn_of source target promotion duck = record {
  from_square = source;
  to_square = target;
  promotion = promotion;
  duck_square = duck;
}

unfoldable pub ducks_of : Board → ℕ → ℕ → Option Kind → List DuckTurn
ducks_of b source target promotion =
    keep (is_legal b) (map (λ duck. turn_of source target promotion (some duck)) (range 64))

unfoldable pub turns_of : Board → ℕ → ℕ → Option Kind → List DuckTurn
unfolding ducks_of
turns_of b source target promotion =
    let move = turn_of source target promotion none in
    if piece_legal b move
    then (if has_kind king (piece_at b.squares target) then move ∷ [] else [])
      ++ ducks_of b source target promotion
    else []

unfoldable pub turns_to : Board → ℕ → Option Piece → ℕ → List DuckTurn
unfolding turns_of promotions
turns_to b source piece target = flat_map (turns_of b source target) (promotions piece target)

unfoldable pub turns_from : Board → ℕ × Option Piece → List DuckTurn
unfolding turns_to
turns_from b (source, piece) =
    if is_own b.turn piece then flat_map (turns_to b source piece) (range 64) else []

unfoldable pub legal_moves : Board → List DuckTurn
unfolding turns_from
legal_moves b = if missing_king b then [] else flat_map (turns_from b) (enumerate 0 b.squares)
