-- ===== src/Duck/Push.antt =====
-- `push` of `DuckBoard`, cope/variants/duck.py.
pub mod Emptied
pub mod DuckFree
use cope_chess.Prelude.{
  ℕ, ◌+◌, ◌/◌, ◌%◌, [], ◌∷◌, ◌++◌, Option, none, some, Bool, not, ◌&&◌, ◌||◌, ◌==◌, ltb,
  if◌then◌else◌, keep, set, opt_is, is_none,
}
use cope_chess.Duck.Board.{
  Kind, pawn, rook, king, Piece, DuckTurn, Squares, Board, piece_at, same_side, has_kind, is_empty,
  base_of, king_to, rook_to,
}
use cope_chess.Duck.Legal.{castle, rook_of, behind, dist, is_legal}
use cope_chess.Duck.Key.{repetition_key}

-- the squares after castling to a side
unfoldable pub castled : Board → DuckTurn → ℕ → Squares
castled b move side =
    let base = base_of b.turn in
    let piece = piece_at b.squares move.from_square in
    let vacated = set (set b.squares move.from_square none) (rook_of side b.rooks) none in
    set (set vacated (king_to base side) piece) (rook_to base side)
      (some (record { is_white = b.turn; kind = rook }))

-- a pawn takes en passant
unfoldable pub takes_ep : Board → DuckTurn → Bool
takes_ep b move =
    has_kind pawn (piece_at b.squares move.from_square)
    && opt_is b.ep_square move.to_square
    && is_empty (piece_at b.squares move.to_square)
    && not (move.from_square % 8 == move.to_square % 8)

abbrev pub landed : Bool → Option Kind → Option Piece → Option Piece
landed turn none piece = piece
landed turn (some kind) piece = some (record { is_white = turn; kind = kind })

-- the squares after any other move
unfoldable pub moved : Board → DuckTurn → Squares
unfolding takes_ep
moved b move =
    let piece = piece_at b.squares move.from_square in
    let taken =
      if takes_ep b move then set b.squares (behind b.turn move.to_square) none else b.squares in
    set (set taken move.from_square none) move.to_square (landed b.turn move.promotion piece)

unfoldable pub squares_after : Board → DuckTurn → Option ℕ → Squares
unfolding castled moved
squares_after b move none = moved b move
squares_after b move (some side) = castled b move side

unfoldable pub clock_after : Board → DuckTurn → Option ℕ → ℕ
clock_after b move (some side) = b.halfmove_clock + 1
clock_after b move none =
    if has_kind pawn (piece_at b.squares move.from_square)
      || not (is_empty (piece_at b.squares move.to_square))
    then 0
    else b.halfmove_clock + 1

-- the castling rights that stay
unfoldable pub right_stays : Board → DuckTurn → Option ℕ → ℕ × ℕ → Bool
right_stays b move castling (side, rook_square) =
    let piece = piece_at b.squares move.from_square in
    let captured = piece_at b.squares move.to_square in
    not (has_kind king piece && same_side (ltb side 2) b.turn)
    && not (has_kind king captured && not (same_side (ltb side 2) b.turn))
    && (not (is_none castling)
        || not (rook_square == move.from_square || rook_square == move.to_square))

unfoldable pub ep_after : Board → DuckTurn → Option ℕ
ep_after b move =
    if has_kind pawn (piece_at b.squares move.from_square)
      && dist move.to_square move.from_square == 16
    then some ((move.from_square + move.to_square) / 2)
    else none

abbrev pub duck_after_move : Option ℕ → Option ℕ → Option ℕ
duck_after_move old none = old
duck_after_move old (some duck) = some duck

-- the board of a legal move, but for the count of its position
unfoldable pub played : Board → DuckTurn → Board
unfolding squares_after clock_after right_stays ep_after
played b move = record b {
  squares = squares_after b move (castle b move);
  halfmove_clock = clock_after b move (castle b move);
  rooks = keep (right_stays b move (castle b move)) b.rooks;
  ep_square = ep_after b move;
  duck_square = duck_after_move b.duck_square move.duck_square;
  fullmove_number = b.fullmove_number + (if b.turn then 0 else 1);
  turn = not b.turn;
  move_stack = b.move_stack ++ (move ∷ []);
}

-- `none` is the ValueError of an illegal move
unfoldable pub push : Board → DuckTurn → Option Board
unfolding played
push b move =
    let next = played b move in
    if is_legal b move
    then some (record next { positions = repetition_key next ∷ b.positions })
    else none
