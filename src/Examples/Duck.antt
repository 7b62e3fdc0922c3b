-- ===== src/Examples/Duck.antt =====
-- A first move of Duck chess.
use cope_chess.Prelude.{
  ◌≡◌, All, List, [], ◌∷◌, ◌++◌, replicate, some, none, true, false, refl, map, Bool,
}
use cope_chess.Duck.Board.{
  Kind, pawn, knight, bishop, rook, queen, king, DuckTurn, Squares, Board, missing_king,
}
use cope_chess.Duck.Key.{repetition_key}
use cope_chess.Duck.Legal.{is_legal, piece_legal}
use cope_chess.Duck.Push.{played, push}
use cope_chess.Duck.Moves.{legal_moves}
use cope_chess.Duck.Moves.Legality.{legal_moves-push}
use cope_chess.Duck.Push.DuckFree.{IsDuckFree, push-IsDuckFree}

abbrev back_rank : List Kind
back_rank = rook ∷ knight ∷ bishop ∷ queen ∷ king ∷ bishop ∷ knight ∷ rook ∷ []

abbrev pieces : Bool → List Kind → Squares
pieces white kinds = map (λ k. some (record { is_white = white; kind = k })) kinds

abbrev start : Board
start = record {
  chess960 = false;
  squares =
      pieces true back_rank
      ++ pieces true (replicate 8 pawn)
      ++ replicate 32 none
      ++ pieces false (replicate 8 pawn)
      ++ pieces false back_rank;
  duck_square = none;
  turn = true;
  rooks = (0, 7) ∷ (1, 0) ∷ (2, 63) ∷ (3, 56) ∷ [];
  ep_square = none;
  halfmove_clock = 0;
  fullmove_number = 1;
  move_stack = [];
  positions = [];
}

-- e2e4, and the duck to e6
abbrev e4 : DuckTurn
e4 = record { from_square = 12; to_square = 28; promotion = none; duck_square = some 44 }

abbrev after_e4 : Board
unfolding played
after_e4 = record (played start e4) { positions = repetition_key (played start e4) ∷ [] }

push-IsDuckFree_example : IsDuckFree after_e4
unfolding push is_legal after_e4 missing_king piece_legal
push-IsDuckFree_example =
    push-IsDuckFree start after_e4 e4
      (record { on_board = λ d e. absurd (cc); on_empty = λ d e. absurd (cc) }) refl

legal_moves-push_example :
    All (λ t. (after : Board) × (push after_e4 t ≡ some after)) (legal_moves after_e4)
legal_moves-push_example = legal_moves-push after_e4
