-- ===== src/Duck/Key.antt =====
-- `_effective_ep` and `repetition_key` of `DuckBoard`, cope/variants/duck.py. The source takes four
-- fields of the position's text as the key; here the key is what these fields show.
use cope_chess.Prelude.{
  ℕ, ◌%◌, List, [], ◌∷◌, Option, none, some, Bool, true, false, not, ◌&&◌, ◌==◌, ltb, if◌then◌else◌,
  any, enumerate, opt_is, set, map, sort_by, keep, length,
}
use cope_chess.Duck.Board.{pawn, Piece, DuckTurn, Squares, Board, Key, is_kind, same_side, has_kind}
use cope_chess.Duck.Legal.{piece_legal}

abbrev ep_move : ℕ → ℕ → DuckTurn
ep_move source target = record {
  from_square = source;
  to_square = target;
  promotion = none;
  duck_square = none;
}

ep_usable : Board → Option ℕ → Bool
ep_usable b none = false
ep_usable b (some ep) =
    not (opt_is b.duck_square ep)
    && any (λ (s : ℕ × Option Piece). has_kind pawn s.1 && piece_legal b (ep_move s.0 ep))
        (enumerate 0 b.squares)

unfoldable pub effective_ep : Board → Bool
unfolding ep_usable
effective_ep b = ep_usable b b.ep_square

-- the duck is written over what stands on its square
abbrev placement_of : Option ℕ → Squares → Squares
placement_of none squares = squares
placement_of (some duck) squares = set squares duck none

-- a letter of the castling field: side and file, or one of "KQkq"
abbrev right_letter : Bool → ℕ × ℕ → ℕ × ℕ
right_letter chess960 (side, rook_square) =
    if chess960 then (if ltb side 2 then 0 else 1, rook_square % 8) else (side, 0)

side_before : ℕ × ℕ → ℕ × ℕ → Bool
side_before a b = ltb a.0 b.0

unfoldable pub repetition_key : Board → Key
unfolding side_before
repetition_key b = record {
  placement = placement_of b.duck_square b.squares;
  duck = b.duck_square;
  white_to_move = b.turn;
  rights = map (right_letter b.chess960) (sort_by side_before b.rooks);
  en_passant = if effective_ep b then b.ep_square else none;
}

abbrev opt_eq : Option ℕ → Option ℕ → Bool
opt_eq none none = true
opt_eq none (some b) = false
opt_eq (some a) none = false
opt_eq (some a) (some b) = a == b

abbrev piece_eq : Option Piece → Option Piece → Bool
piece_eq none none = true
piece_eq none (some q) = false
piece_eq (some p) none = false
piece_eq (some p) (some q) = same_side p.is_white q.is_white && is_kind p.kind q.kind

abbrev squares_eq : Squares → Squares → Bool
squares_eq [] [] = true
squares_eq [] (y ∷ ys) = false
squares_eq (x ∷ xs) [] = false
squares_eq (x ∷ xs) (y ∷ ys) = piece_eq x y && squares_eq xs ys

abbrev rights_eq : List (ℕ × ℕ) → List (ℕ × ℕ) → Bool
rights_eq [] [] = true
rights_eq [] (y ∷ ys) = false
rights_eq (x ∷ xs) [] = false
rights_eq (x ∷ xs) (y ∷ ys) = x.0 == y.0 && x.1 == y.1 && rights_eq xs ys

unfoldable pub key_eq : Key → Key → Bool
key_eq a b =
    squares_eq a.placement b.placement
    && opt_eq a.duck b.duck
    && same_side a.white_to_move b.white_to_move
    && rights_eq a.rights b.rights
    && opt_eq a.en_passant b.en_passant

-- `_positions[key]`: the counter is the list of the keys that were counted
unfoldable pub times_seen : Key → List Key → ℕ
times_seen k keys = length (keep (key_eq k) keys)
