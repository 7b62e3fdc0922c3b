-- ===== src/Duck/Push/Emptied.antt =====
-- Which squares are empty after a legal move of Duck chess.
use cope_chess.Prelude.{
  ℕ, ◌+◌, ◌-◌, ◌++◌, Option, none, some, Bool, true, false, not, ◌&&◌, ◌||◌, ◌==◌, ltb,
  if◌then◌else◌, ◌≡◌, refl, ap, ◌∙◌, sym, arith, set, get_or-set-ne, get_or-set_default, all,
  all-append, all_in-range, Bool-cases, inl, inr, opt_is, min, max,
}
use cope_chess.Duck.Board.{
  Piece, DuckTurn, Squares, Board, piece_at, is_empty, is_own, king_to, rook_to, base_of,
}
use cope_chess.Duck.Legal.{
  castle, castle_free, castle_legal, rook_of, behind, piece_legal, piece_moves, duck_legal_plain,
  duck_legal_castle, ep_vacated, span,
}
use cope_chess.Duck.Push.{castled, takes_ep, landed, moved}

empty_none : (o : Option Piece) → is_empty o ≡ true → o ≡ none
empty_none none h = refl
empty_none (some p) h = cc

set-empty :
    (squares : Squares) (i j : ℕ)
    → piece_at squares j ≡ none
    → piece_at (set squares i none) j ≡ none
set-empty squares i j h = elim (Bool-cases (i == j)) [
  | inl e ↦
      let same : i ≡ j = ground arith in
      ap (λ k. piece_at (set squares i none) k) (sym same) ∙ get_or-set_default squares i none
  | inr e ↦ get_or-set-ne squares i j none none e ∙ h
]

-- the square that is left
set-left : (squares : Squares) (i j : ℕ) → (i == j) ≡ true → piece_at (set squares i none) j ≡ none
set-left squares i j e =
    let same : i ≡ j = ground arith in
    ap (λ k. piece_at (set squares i none) k) (sym same) ∙ get_or-set_default squares i none

taken-empty :
    (squares : Squares) (takes : Bool) (captured d : ℕ)
    → (is_empty (piece_at squares d) || (takes && captured == d)) ≡ true
    → piece_at (if takes then set squares captured none else squares) d ≡ none
taken-empty squares false captured d h = empty_none (piece_at squares d) (ground arith)
taken-empty squares true captured d h = elim (Bool-cases (captured == d)) [
  | inl e ↦ set-left squares captured d e
  | inr e ↦ set-empty squares captured d (empty_none (piece_at squares d) (ground arith))
]

pub moved-empty :
    (b : Board) (move : DuckTurn) (d : ℕ)
    → (move.to_square == d) ≡ false
    → ((move.from_square == d)
        || (is_empty (piece_at b.squares d)
            || (takes_ep b move && behind b.turn move.to_square == d)))
      ≡ true
    → piece_at (moved b move) d ≡ none
unfolding moved
moved-empty b move d ne h =
    let captured = behind b.turn move.to_square in
    let taken = if takes_ep b move then set b.squares captured none else b.squares in
    get_or-set-ne (set taken move.from_square none) move.to_square d
      (landed b.turn move.promotion (piece_at b.squares move.from_square)) none ne
    ∙ elim (Bool-cases (move.from_square == d)) [
      | inl e ↦ set-left taken move.from_square d e
      | inr e ↦
          set-empty taken move.from_square d
            (taken-empty b.squares (takes_ep b move) captured d (ground (arith, h, e)))
    ]

castled-empty :
    (b : Board) (move : DuckTurn) (side d : ℕ)
    → (king_to (base_of b.turn) side == d) ≡ false
    → (rook_to (base_of b.turn) side == d) ≡ false
    → ((move.from_square == d) || ((rook_of side b.rooks == d) || is_empty (piece_at b.squares d)))
      ≡ true
    → piece_at (castled b move side) d ≡ none
unfolding castled
castled-empty b move side d k r h =
    let source = move.from_square in
    let one = set b.squares source none in
    let two = set one (rook_of side b.rooks) none in
    let three = set two (king_to (base_of b.turn) side) (piece_at b.squares source) in
    let vacated : piece_at two d ≡ none = elim (Bool-cases (rook_of side b.rooks == d)) [
      | inl e ↦ set-left one (rook_of side b.rooks) d e
      | inr e ↦ set-empty one (rook_of side b.rooks) d (elim (Bool-cases (source == d)) [
        | inl f ↦ set-left b.squares source d f
        | inr f ↦
            set-empty b.squares source d
              (empty_none (piece_at b.squares d) (ground (arith, h, e, f)))
      ])
    ] in
    get_or-set-ne three (rook_to (base_of b.turn) side) d _ none r
    ∙ get_or-set-ne two (king_to (base_of b.turn) side) d _ none k
    ∙ vacated

pub guards-pass :
    (g owns r : Bool)
    → (if g then false else if not owns then false else r) ≡ true
    → (g ≡ false) × (r ≡ true)
guards-pass true owns r h = cc
guards-pass false false r h = cc
guards-pass false true r h = (refl, h)

pub guard-passes : (g r : Bool) → (if g then false else r) ≡ true → r ≡ true
guard-passes true r h = cc
guard-passes false r h = h

pub or_false : (x y : Bool) → (x || y) ≡ false → (x ≡ false) × (y ≡ false)
or_false false y h = (refl, h)
or_false true y h = cc

-- what every legal move satisfies
pub record Moves (b : Board) (move : DuckTurn) : Type 0 where
  pub apart : (move.from_square == move.to_square) ≡ false
  pub not_onto_duck : opt_is b.duck_square move.to_square ≡ false
  pub castles : (side : ℕ) → castle b move ≡ some side → castle_legal b move side ≡ true

castle-Moves :
    (b : Board) (move : DuckTurn) (piece : Option Piece) (o : Option ℕ) (side : ℕ)
    → piece_moves b move piece o ≡ true
    → o ≡ some side
    → castle_legal b move side ≡ true
unfolding piece_moves
castle-Moves b move none o side h e = absurd (ground (arith, h))
castle-Moves b move (some piece) none side h e = cc
castle-Moves b move (some piece) (some k) side h e =
    let same : k ≡ side = cc in ap (castle_legal b move) (sym same) ∙ h

pub legal-Moves : (b : Board) (move : DuckTurn) → piece_legal b move ≡ true → Moves b move
unfolding piece_legal
legal-Moves b move p =
    let source = move.from_square in
    let target = move.to_square in
    let piece = piece_at b.squares source in
    let off = not (ltb source 64) || not (ltb target 64) in
    let (guarded, inner) =
      guards-pass (off || source == target || opt_is b.duck_square target) (is_own b.turn piece)
        (piece_moves b move piece (castle b move)) p in
    let (left, not_onto) =
      or_false (off || source == target) (opt_is b.duck_square target) guarded in
    record {
      apart = (or_false off (source == target) left).1;
      not_onto_duck = not_onto;
      castles = λ side e. castle-Moves b move piece (castle b move) side inner e;
    }

ep-takes :
    (b : Board) (move : DuckTurn) (d : ℕ)
    → ep_vacated b move d ≡ true
    → (takes_ep b move && behind b.turn move.to_square == d) ≡ true
unfolding ep_vacated takes_ep
ep-takes b move d h = ground (arith, h)

-- a new square for the duck
pub plain-empty :
    (b : Board) (move : DuckTurn) (d : ℕ)
    → duck_legal_plain b move d ≡ true
    → Moves b move
    → piece_at (moved b move) d ≡ none
unfolding duck_legal_plain
plain-empty b move d h m =
    moved-empty b move d (ground (arith, h, m.apart)) (ground (arith, h, ep-takes b move d))

pub side-empty :
    (b : Board) (move : DuckTurn) (side d : ℕ)
    → duck_legal_castle b move d side ≡ true
    → piece_at (castled b move side) d ≡ none
unfolding duck_legal_castle
side-empty b move side d h =
    castled-empty b move side d (ground (arith, h)) (ground (arith, h)) (ground (arith, h))

pub and_true : (x y : Bool) → (x && y) ≡ true → (x ≡ true) × (y ≡ true)
and_true true y h = (refl, h)
and_true false y h = cc

free-apart :
    (b : Board) (source rook_square sq d : ℕ)
    → castle_free b source rook_square sq ≡ true
    → b.duck_square ≡ some d
    → (sq == d) ≡ false
unfolding castle_free
free-apart b source rook_square sq d h here =
    let (off, rest) = and_true (not (opt_is b.duck_square sq)) _ h in
    let off' : not (opt_is (some d) sq) ≡ true = ap (λ o. not (opt_is o sq)) (sym here) ∙ off in
    ground (arith, off')

-- castling does not go over the duck
pub old-side-empty :
    (b : Board) (move : DuckTurn) (side d : ℕ)
    → castle_legal b move side ≡ true
    → b.duck_square ≡ some d
    → piece_at b.squares d ≡ none
    → piece_at (castled b move side) d ≡ none
unfolding castle_legal castle_free
old-side-empty b move side d h here e =
    let source = move.from_square in
    let rook_square = rook_of side b.rooks in
    let king_square = king_to (base_of b.turn) side in
    let rook_target = rook_to (base_of b.turn) side in
    let test = castle_free b source rook_square in
    let free =
      guard-passes _ (all test (span source king_square ++ span rook_square rook_target)) h in
    let (of_king, of_rook) =
      and_true (all test (span source king_square)) (all test (span rook_square rook_target))
        (sym (all-append test (span source king_square) (span rook_square rook_target)) ∙ free) in
    let at = λ (from to : ℕ) (all_free : all test (span from to) ≡ true).
      all_in-range test (min from to) (max from to + 1 - min from to) to all_free (omega arith)
        (omega arith) in
    castled-empty b move side d
      (free-apart b source rook_square king_square d (at source king_square of_king) here)
      (free-apart b source rook_square rook_target d (at rook_square rook_target of_rook) here)
      (rw e (ground arith))
