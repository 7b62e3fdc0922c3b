-- ===== src/Duck/Legal.antt =====
-- `_castle`, `_piece_legal` and `is_legal` of `DuckBoard`, cope/variants/duck.py.
use cope_chess.Prelude.{
  ℕ, ◌+◌, ◌-◌, ◌*◌, ◌/◌, ◌%◌, List, [], ◌∷◌, ◌++◌, Option, none, some, Bool, true, false, not, ◌&&◌,
  ◌||◌, ◌==◌, ltb, if◌then◌else◌, all, map, range_from, min, max, opt_is, is_none,
}
use cope_chess.Duck.Board.{
  Kind, pawn, knight, bishop, rook, queen, king, Piece, DuckTurn, Board, piece_at, is_kind,
  same_side, is_piece, has_kind, is_empty, is_own, base_of, king_to, rook_to, missing_king,
}

-- the loop of `_castle` over `rooks.items()`
unfoldable pub castle_side : Bool → Bool → ℕ → List (ℕ × ℕ) → Option ℕ
castle_side chess960 turn target [] = none
castle_side chess960 turn target ((side, rook_square) ∷ rooks) =
    let rest = castle_side chess960 turn target rooks in
    if same_side (ltb side 2) turn
      && target == (if chess960 then rook_square else king_to (base_of turn) side)
    then some side
    else rest

unfoldable pub castle : Board → DuckTurn → Option ℕ
unfolding castle_side
castle b move =
    let base = base_of b.turn in
    if not (is_piece b.turn king (piece_at b.squares move.from_square))
    then none
    else if not (move.from_square / 8 == base / 8)
    then none
    else castle_side b.chess960 b.turn move.to_square b.rooks

-- `self.rooks[side]`, of a side that `_castle` found
unfoldable pub rook_of : ℕ → List (ℕ × ℕ) → ℕ
rook_of side [] = 0
rook_of side ((k, square) ∷ rooks) = if k == side then square else rook_of side rooks

-- `range(min(a, b), max(a, b) + 1)`
abbrev pub span : ℕ → ℕ → List ℕ
span a b = range_from (min a b) (max a b + 1 - min a b)

-- free for castling: no duck, and no piece but the king and the rook themselves
unfoldable pub castle_free : Board → ℕ → ℕ → ℕ → Bool
castle_free b source rook_square sq =
    not (opt_is b.duck_square sq)
    && (sq == source || sq == rook_square || is_empty (piece_at b.squares sq))

unfoldable pub castle_legal : Board → DuckTurn → ℕ → Bool
unfolding castle_free
castle_legal b move side =
    let base = base_of b.turn in
    let rook_square = rook_of side b.rooks in
    let source = move.from_square in
    if not (is_none move.promotion) || not (is_piece b.turn rook (piece_at b.squares rook_square))
    then false
    else all (castle_free b source rook_square)
        (span source (king_to base side) ++ span rook_square (rook_to base side))

abbrev pub dist : ℕ → ℕ → ℕ
dist a b = (a - b) + (b - a)

-- `move.promotion in "nbrq"`
abbrev pub promotable : Option Kind → Bool
promotable none = true
promotable (some knight) = true
promotable (some bishop) = true
promotable (some rook) = true
promotable (some queen) = true
promotable (some _) = false

-- `target - 8 * direction`; an index below 0 counts from the end
abbrev pub behind : Bool → ℕ → ℕ
behind true target = if ltb target 8 then 56 + target else target - 8
behind false target = target + 8

-- `target_rank - source_rank == n * direction`
abbrev pub ahead : Bool → ℕ → ℕ → ℕ → Bool
ahead true n source_rank target_rank = target_rank == source_rank + n
ahead false n source_rank target_rank = source_rank == target_rank + n

-- the square in front of a pawn on its first rank
abbrev pub front : Bool → ℕ → ℕ
front true source = source + 8
front false source = source - 8

unfoldable pub pawn_legal : Board → ℕ → ℕ → Bool
pawn_legal b source target =
    let captured = piece_at b.squares target in
    let ahead_by = λ (n : ℕ). ahead b.turn n (source / 8) (target / 8) in
    let same_file = source % 8 == target % 8 in
    if dist (target % 8) (source % 8) == 1 && ahead_by 1
    then not (is_empty captured)
      || (opt_is b.ep_square target
          && is_piece (not b.turn) pawn (piece_at b.squares (behind b.turn target)))
    else if not same_file || not (is_empty captured)
    then false
    else if ahead_by 1
    then true
    else ahead_by 2
      && source / 8 == (if b.turn then 1 else 6)
      && is_empty (piece_at b.squares (front b.turn source))
      && not (opt_is b.duck_square (front b.turn source))

-- `range(source + step, target, step)`: the step goes `up` and `down` by so much
unfoldable pub path_between : ℕ → ℕ → List ℕ
path_between source target =
    let dx_up = ltb (source % 8) (target % 8) in
    let dx_down = ltb (target % 8) (source % 8) in
    let dy_up = ltb (source / 8) (target / 8) in
    let dy_down = ltb (target / 8) (source / 8) in
    let up = (if dx_up then 1 else 0) + (if dy_up then 8 else 0) in
    let down = (if dx_down then 1 else 0) + (if dy_down then 8 else 0) in
    let steps = max (dist (target % 8) (source % 8)) (dist (target / 8) (source / 8)) in
    map (λ i. source + i * up - i * down) (range_from 1 (steps - 1))

unfoldable pub clear_path : Board → ℕ → ℕ → Bool
unfolding path_between
clear_path b source target =
    all (λ sq. is_empty (piece_at b.squares sq) && not (opt_is b.duck_square sq))
      (path_between source target)

-- the moves of the pieces, once ownership and promotion are checked
unfoldable pub kind_legal : Board → Kind → ℕ → ℕ → Bool
unfolding pawn_legal clear_path
kind_legal b pawn source target = pawn_legal b source target
kind_legal b knight source target =
    dist (target % 8) (source % 8) * dist (target / 8) (source / 8) == 2
kind_legal b king source target =
    max (dist (target % 8) (source % 8)) (dist (target / 8) (source / 8)) == 1
kind_legal b bishop source target =
    dist (target % 8) (source % 8) == dist (target / 8) (source / 8) && clear_path b source target
kind_legal b rook source target =
    (source % 8 == target % 8 || source / 8 == target / 8) && clear_path b source target
kind_legal b queen source target =
    (dist (target % 8) (source % 8) == dist (target / 8) (source / 8)
      || source % 8 == target % 8
      || source / 8 == target / 8)
    && clear_path b source target

-- a move that is no castling
unfoldable pub plain_legal : Board → DuckTurn → Piece → Bool
unfolding kind_legal
plain_legal b move piece =
    let captured = piece_at b.squares move.to_square in
    let promoting = is_kind piece.kind pawn && move.to_square / 8 == (if b.turn then 7 else 0) in
    if is_own b.turn captured
    then false
    else if not (same_side promoting (not (is_none move.promotion)))
        || not (promotable move.promotion)
    then false
    else kind_legal b piece.kind move.from_square move.to_square

unfoldable pub piece_moves : Board → DuckTurn → Option Piece → Option ℕ → Bool
piece_moves b move none side = false
piece_moves b move (some piece) none = plain_legal b move piece
piece_moves b move (some piece) (some side) = castle_legal b move side

unfoldable pub piece_legal : Board → DuckTurn → Bool
unfolding castle castle_legal plain_legal piece_moves
piece_legal b move =
    let source = move.from_square in
    let target = move.to_square in
    let piece = piece_at b.squares source in
    if not (ltb source 64) || not (ltb target 64) || source == target || opt_is b.duck_square target
    then false
    else if not (is_own b.turn piece)
    then false
    else piece_moves b move piece (castle b move)

-- the duck's square is the one of a pawn that is taken en passant
unfoldable pub ep_vacated : Board → DuckTurn → ℕ → Bool
ep_vacated b move duck =
    has_kind pawn (piece_at b.squares move.from_square)
    && opt_is b.ep_square move.to_square
    && is_empty (piece_at b.squares move.to_square)
    && not (move.from_square % 8 == move.to_square % 8)
    && (if b.turn then duck + 8 == move.to_square else duck == move.to_square + 8)

unfoldable pub duck_legal_plain : Board → DuckTurn → ℕ → Bool
unfolding ep_vacated
duck_legal_plain b move duck =
    if duck == move.from_square
    then true
    else if duck == move.to_square
    then false
    else if ep_vacated b move duck
    then true
    else is_empty (piece_at b.squares duck)

unfoldable pub duck_legal_castle : Board → DuckTurn → ℕ → ℕ → Bool
duck_legal_castle b move duck side =
    let base = base_of b.turn in
    if duck == king_to base side || duck == rook_to base side
    then false
    else duck == move.from_square
      || duck == rook_of side b.rooks
      || is_empty (piece_at b.squares duck)

unfoldable pub duck_after : Board → DuckTurn → ℕ → Option ℕ → Bool
duck_after b move duck none = duck_legal_plain b move duck
duck_after b move duck (some side) = duck_legal_castle b move duck side

unfoldable pub duck_legal : Board → DuckTurn → Option ℕ → Bool
unfolding duck_after duck_legal_castle duck_legal_plain castle
duck_legal b move none = has_kind king (piece_at b.squares move.to_square)
duck_legal b move (some duck) =
    if opt_is b.duck_square duck || not (ltb duck 64)
    then false
    else duck_after b move duck (castle b move)

unfoldable pub is_legal : Board → DuckTurn → Bool
unfolding duck_legal
is_legal b move =
    if missing_king b || not (piece_legal b move) then false else duck_legal b move move.duck_square
