-- ===== src/Duck/Push/DuckFree.antt =====
-- `push` of `DuckBoard`, cope/variants/duck.py, and the square of the duck.
use mathlib.Core.Path.{subst}
use cope_chess.Prelude.{
  ℕ, ◌<◌, ap, Option, none, some, true, false, not, ◌||◌, ltb, ◌∷◌, ◌≡◌, refl, ◌∙◌, sym, arith,
  Bool-cases, inl, inr, opt_is,
}
use cope_chess.Duck.Board.{DuckTurn, Board, piece_at, missing_king}
use cope_chess.Duck.Key.{repetition_key}
use cope_chess.Duck.Legal.{castle, piece_legal, is_legal, duck_legal, duck_after}
use cope_chess.Duck.Push.{squares_after, duck_after_move, played, push}
use cope_chess.Duck.Push.Emptied.{
  Moves, legal-Moves, plain-empty, side-empty, old-side-empty, moved-empty, guard-passes,
}

-- the duck, if it is on the board, stands on an empty square
pub record IsDuckFree (b : Board) : Type 0 where
  pub on_board : (d : ℕ) → b.duck_square ≡ some d → d < 64
  pub on_empty : (d : ℕ) → b.duck_square ≡ some d → piece_at b.squares d ≡ none

new-empty :
    (b : Board) (move : DuckTurn) (o : Option ℕ) (d : ℕ)
    → Moves b move
    → duck_after b move d o ≡ true
    → piece_at (squares_after b move o) d ≡ none
unfolding duck_after squares_after
new-empty b move none d m h = plain-empty b move d h m
new-empty b move (some side) d m h = side-empty b move side d h

old-empty :
    (b : Board) (move : DuckTurn) (o : Option ℕ) (d : ℕ)
    → Moves b move
    → castle b move ≡ o
    → b.duck_square ≡ some d
    → piece_at b.squares d ≡ none
    → piece_at (squares_after b move o) d ≡ none
unfolding squares_after
old-empty b move none d m e here empty =
    let off : opt_is (some d) move.to_square ≡ false =
      ap (λ o. opt_is o move.to_square) (sym here) ∙ m.not_onto_duck in
    moved-empty b move d (ground (arith, off)) (rw empty (ground arith))
old-empty b move (some side) d m e here empty =
    old-side-empty b move side d (m.castles side e) here empty

-- where the duck is after the move
after-IsDuckFree :
    (b : Board) (move : DuckTurn) (o : Option ℕ)
    → IsDuckFree b
    → Moves b move
    → duck_legal b move o ≡ true
    → (d : ℕ) → duck_after_move b.duck_square o ≡ some d
    → (d < 64) × (piece_at (squares_after b move (castle b move)) d ≡ none)
unfolding duck_legal
after-IsDuckFree b move none free m h d e =
    (free.on_board d e, old-empty b move (castle b move) d m refl e (free.on_empty d e))
after-IsDuckFree b move (some duck) free m h d e =
    let same : duck ≡ d = cc in
    let inner =
      guard-passes (opt_is b.duck_square duck || not (ltb duck 64))
        (duck_after b move duck (castle b move)) h in
    subst (λ k. (k < 64) × (piece_at (squares_after b move (castle b move)) k ≡ none)) same
      (ground (arith, h), new-empty b move (castle b move) duck m inner)

legal-parts :
    (b : Board) (move : DuckTurn)
    → is_legal b move ≡ true
    → (piece_legal b move ≡ true) × (duck_legal b move move.duck_square ≡ true)
unfolding is_legal
legal-parts b move h = elim (Bool-cases (piece_legal b move)) [
  | inl e ↦ (
    e,
    guard-passes (missing_king b || not (piece_legal b move)) (duck_legal b move move.duck_square)
        h,
  )
  | inr e ↦ absurd (ground (arith, h, e))
]

-- The duck stays on an empty square of the board: whatever legal move is played, castling and en passant
-- included, no piece stands on the duck's square afterwards if none did before.
pub push-IsDuckFree :
    (b after : Board) (move : DuckTurn) → IsDuckFree b → push b move ≡ some after → IsDuckFree after
unfolding push played
push-IsDuckFree b after move free h =
    let next : Board = record (played b move) {
      positions = repetition_key (played b move) ∷ b.positions;
    } in
    elim (Bool-cases (is_legal b move)) [
      | inr illegal ↦ let q : push b move ≡ none = rw illegal refl in cc
      | inl legal ↦
          let q : push b move ≡ some next = rw legal refl in
          let same : next ≡ after = cc in
          let (pieces, duck) = legal-parts b move legal in
          let free' =
            after-IsDuckFree b move move.duck_square free (legal-Moves b move pieces) duck in
          subst IsDuckFree same
            (record { on_board = λ d e. (free' d e).0; on_empty = λ d e. (free' d e).1 })
    ]
