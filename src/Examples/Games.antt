-- ===== src/Examples/Games.antt =====
-- Clocks, and the repetition counts of a game on a board of numbers.
use cope_chess.Prelude.{
  ℕ, ◌%◌, List, [], ◌∷◌, ◌++◌, some, none, true, false, ◌≡◌, refl, ◌∙◌, ==_iff, length, pos, ◌==◌,
  sym, append_assoc, append-nil,
}
use cope_chess.Game.TimeControl.{movestogo}
use cope_chess.Game.Clock.{TimeManager, probe_clock, stop_clock}
use cope_chess.Game.Agreement.{Agree, probe_clock-Agree}
use cope_chess.Game.Boards.{Boards}
use cope_chess.Game.State.{times, new_game}
use cope_chess.Game.State.Counts.{AreBoards, pushes, play, play-counts, occurrences, position_keys}

-- forty moves in a minute
abbrev manager : TimeManager
manager = record {
  time_control = record {
    category = movestogo;
    initial_time = some (pos 60000);
    increment = none;
    move_time = none;
    moves_to_go = some (pos 40);
    nodes = none;
  };
  chess_clock = record { running = true; clock = 100 };
  remaining_time = some (pos 60000000000);
  remaining_move_time = none;
  moves_to_go = some (pos 40);
  nodes = none;
}

probe_clock-Agree_example : Agree (probe_clock 500 none manager) (stop_clock 500 none manager)
probe_clock-Agree_example = probe_clock-Agree 500 none manager (λ e n. cc)

-- a board is the list of its moves, and its key their number
abbrev tapes : Boards
tapes = record {
  Board = List ℕ;
  Move = ℕ;
  Key = ℕ;
  same_key = λ a b. a == b;
  turn = λ b. true;
  root = λ b. [];
  move_stack = λ b. b;
  push = λ m b. b ++ (m ∷ []);
  position_key = λ b. length b % 2;
  is_duck = λ b. false;
  duck_outcome = λ b. none;
  missing_king = λ b. false;
  is_variant_loss = λ b. false;
  is_variant_win = λ b. false;
  is_variant_draw = λ b. false;
  is_checkmate = λ b. false;
  is_insufficient_material = λ b. false;
  is_stalemate = λ b. false;
  is_seventyfive_moves = λ b. false;
  halfmove_clock = λ b. 0;
  can_claim_fifty_moves = λ b. false;
  has_insufficient_material = λ side b. false;
}

pushes_all : (moves start : List ℕ) → pushes tapes moves start ≡ start ++ moves
unfolding pushes
pushes_all [] start = sym (append-nil start)
pushes_all (m ∷ moves) start =
    pushes_all moves (start ++ (m ∷ [])) ∙ append_assoc start (m ∷ []) moves

tapes-AreBoards : AreBoards tapes
tapes-AreBoards = record {
  push_stack = λ m b. refl;
  push_root = λ m b. refl;
  whole = λ b. pushes_all b [];
  key_equality = λ a b. ==_iff a b;
}

play-counts_example :
    let s = play tapes (7 ∷ 8 ∷ []) (new_game tapes []) in
    times tapes 1 s.position_counts ≡ occurrences tapes 1 (position_keys tapes s.board)
play-counts_example = play-counts tapes tapes-AreBoards [] (7 ∷ 8 ∷ []) 1
