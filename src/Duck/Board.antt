-- ===== src/Duck/Board.antt =====
-- The state of `DuckBoard`, and `DuckTurn`, of cope/variants/duck.py. A square of `squares` is `none`
-- for the empty text; White's pieces are those that the source writes in upper case. `rooks` is the
-- dictionary from a side (0 to 3: K, Q, k, q) to the rook's square, in order of insertion.
use cope_chess.Prelude.{
  ℕ, ◌+◌, ◌%◌, List, Option, none, some, Bool, true, false, not, ◌&&◌, ◌||◌, ◌==◌, if◌then◌else◌,
  get_or, any,
}

pub data Kind : Type 0 where
  pawn knight bishop rook queen king : Kind

pub record Piece : Type 0 where
  pub is_white : Bool
  pub kind : Kind

-- `promotion` is `none` for the empty text
pub record DuckTurn : Type 0 where
  pub from_square : ℕ
  pub to_square : ℕ
  pub promotion : Option Kind
  pub duck_square : Option ℕ

abbrev pub Squares : Type 0
Squares = List (Option Piece)

-- what `repetition_key` shows of a position: placement, duck, side to move, castling rights, and the
-- en-passant square if it can be used
pub record Key : Type 0 where
  pub placement : Squares
  pub duck : Option ℕ
  pub white_to_move : Bool
  pub rights : List (ℕ × ℕ)
  pub en_passant : Option ℕ

pub record Board : Type 0 where
  pub chess960 : Bool
  pub squares : Squares
  pub duck_square : Option ℕ
  pub turn : Bool
  pub rooks : List (ℕ × ℕ)
  pub ep_square : Option ℕ
  pub halfmove_clock : ℕ
  pub fullmove_number : ℕ
  pub move_stack : List DuckTurn
  pub positions : List Key

-- `squares[square]` of a square on the board
abbrev pub piece_at : Squares → ℕ → Option Piece
piece_at squares square = get_or squares square none

abbrev pub is_kind : Kind → Kind → Bool
is_kind pawn pawn = true
is_kind knight knight = true
is_kind bishop bishop = true
is_kind rook rook = true
is_kind queen queen = true
is_kind king king = true
is_kind _ _ = false

abbrev pub same_side : Bool → Bool → Bool
same_side true b = b
same_side false b = not b

-- a piece of that kind and side
abbrev pub is_piece : Bool → Kind → Option Piece → Bool
is_piece white _ none = false
is_piece white kind (some p) = same_side p.is_white white && is_kind p.kind kind

-- a piece of that kind, of either side
abbrev pub has_kind : Kind → Option Piece → Bool
has_kind _ none = false
has_kind kind (some p) = is_kind p.kind kind

abbrev pub is_empty : Option Piece → Bool
is_empty none = true
is_empty (some p) = false

-- `piece and piece.isupper() == side`
abbrev pub is_own : Bool → Option Piece → Bool
is_own side none = false
is_own side (some p) = same_side p.is_white side

-- `base`: the first square of a side's home rank
abbrev pub base_of : Bool → ℕ
base_of true = 0
base_of false = 56

-- where the king and the rook stand after castling to a side
abbrev pub king_to : ℕ → ℕ → ℕ
king_to base side = base + (if side % 2 == 1 then 2 else 6)

abbrev pub rook_to : ℕ → ℕ → ℕ
rook_to base side = base + (if side % 2 == 1 then 3 else 5)

unfoldable pub missing_king : Board → Bool
missing_king b =
    not (any (is_piece true king) b.squares) || not (any (is_piece false king) b.squares)
