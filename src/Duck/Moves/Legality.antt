-- ===== src/Duck/Moves/Legality.antt =====
-- The list of legal moves against `is_legal` and `push`.
use cope_chess.Prelude.{
  ℕ, List, [], ◌∷◌, Option, none, some, true, false, ◌≡◌, refl, Bool-cases, inl, inr, All,
  All-flat_map, All-keep, map, range, enumerate, flat_map,
}
use cope_chess.Duck.Board.{
  Kind, king, Piece, DuckTurn, Board, piece_at, has_kind, is_own, missing_king,
}
use cope_chess.Duck.Legal.{piece_legal, is_legal, duck_legal}
use cope_chess.Duck.Push.{push}
use cope_chess.Duck.Moves.{
  turn_of, ducks_of, turns_of, promotions, turns_to, turns_from, legal_moves,
}

abbrev IsLegal : Board → DuckTurn → Type 0
IsLegal b t = is_legal b t ≡ true

-- the capture of a king, without a new square for the duck
king-IsLegal :
    (b : Board) (source target : ℕ) (promotion : Option Kind)
    → missing_king b ≡ false
    → piece_legal b (turn_of source target promotion none) ≡ true
    → has_kind king (piece_at b.squares target) ≡ true
    → IsLegal b (turn_of source target promotion none)
unfolding is_legal duck_legal
king-IsLegal b source target promotion kings legal takes = rw (kings, legal, takes) refl

of-IsLegal :
    (b : Board) (source target : ℕ)
    → missing_king b ≡ false
    → (promotion : Option Kind) → All (IsLegal b) (turns_of b source target promotion)
unfolding turns_of ducks_of
of-IsLegal b source target kings promotion =
    let move = turn_of source target promotion none in
    let ducks = map (λ duck. turn_of source target promotion (some duck)) (range 64) in
    elim (Bool-cases (piece_legal b move)) [
      | inr e ↦ rw e tt
      | inl e ↦ elim (Bool-cases (has_kind king (piece_at b.squares target))) [
        | inr f ↦ rw (e, f) (All-keep (is_legal b) ducks)
        | inl f ↦
            rw (e, f)
              (king-IsLegal b source target promotion kings e f, All-keep (is_legal b) ducks)
      ]
    ]

from-IsLegal :
    (b : Board) → missing_king b ≡ false → (p : ℕ × Option Piece) → All (IsLegal b) (turns_from b p)
unfolding turns_from turns_to
from-IsLegal b kings (source, piece) = elim (Bool-cases (is_own b.turn piece)) [
  | inr e ↦ rw e tt
  | inl e ↦ rw e (
      All-flat_map (IsLegal b)
        (λ target. flat_map (turns_of b source target) (promotions piece target))
        (λ target.
          All-flat_map (IsLegal b) (turns_of b source target) (of-IsLegal b source target kings)
            (promotions piece target))
        (range 64))
]

legal_moves-IsLegal : (b : Board) → All (IsLegal b) (legal_moves b)
unfolding legal_moves
legal_moves-IsLegal b = elim (Bool-cases (missing_king b)) [
  | inl e ↦ rw e tt
  | inr e ↦
      rw e (All-flat_map (IsLegal b) (turns_from b) (from-IsLegal b e) (enumerate 0 b.squares))
]

legal-pushes :
    (b : Board) (ts : List DuckTurn)
    → All (IsLegal b) ts
    → All (λ t. (after : Board) × (push b t ≡ some after)) ts
unfolding push
legal-pushes b [] h = tt
legal-pushes b (t ∷ ts) h = (rw h.0 (_, refl), legal-pushes b ts h.1)

-- Every turn that iterating over the legal moves yields is one that `push` accepts.
pub legal_moves-push :
    (b : Board) → All (λ t. (after : Board) × (push b t ≡ some after)) (legal_moves b)
legal_moves-push b = legal-pushes b (legal_moves b) (legal_moves-IsLegal b)
