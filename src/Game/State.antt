-- ===== src/Game/State.antt =====
-- `GameState` and `GameTermination` of cope/tournament/game_state.py. Boards and moves are a
-- parameter: python-chess's, and those of Duck chess.
pub mod Counts
use cope_chess.Prelude.{
  ℕ, suc, ◌+◌, List, [], ◌∷◌, Option, none, some, Bool, true, false, not, ◌&&◌, leb, ◌==◌,
  if◌then◌else◌, length, String, is_none,
}
use cope_chess.Game.Boards.{
  BoardTermination, variant_win, variant_loss, variant_draw, BoardOutcome, Boards,
}
use cope_chess.Tournament.Records.{GameResult, white_wins, black_wins, draw}

pub data GameTermination : Type 0 where
  checkmate stalemate insufficient_material seventyfive_moves fivefold_repetition fifty_moves
        threefold_repetition :
      GameTermination
  timeout illegal_move engine_error variant_end king_capture no_legal_move unknown : GameTermination

-- `_details`: the value of a termination, and a text after it
pub record Details : Type 0 where
  pub reason : GameTermination
  pub text : Option String

module _ (boards : Boards) where
  abbrev pub PositionCounts : Type 0
  PositionCounts = List (boards.Key × ℕ)

  -- `_position_counts.get(key, 0)`
  unfoldable pub times : boards.Key → PositionCounts → ℕ
  times key [] = 0
  times key ((k, n) ∷ counts) =
      let rest = times key counts in if boards.same_key k key then n else rest

  -- `_position_counts[key] = _position_counts.get(key, 0) + 1`
  unfoldable pub bump : boards.Key → PositionCounts → PositionCounts
  bump key [] = (key, 1) ∷ []
  bump key ((k, n) ∷ counts) =
      let rest = bump key counts in
      if boards.same_key k key then (k, n + 1) ∷ counts else (k, n) ∷ rest

  -- the loop of `_reset_position_counts`
  unfoldable pub replay :
      List boards.Move → boards.Board → PositionCounts → boards.Board × PositionCounts
  unfolding bump
  replay [] board counts = (board, counts)
  replay (move ∷ moves) board counts =
      replay moves (boards.push move board)
        (bump (boards.position_key (boards.push move board)) counts)

  unfoldable pub recounted : boards.Board → PositionCounts
  unfolding replay
  recounted board =
      let start = boards.root board in
      (replay (boards.move_stack board) start ((boards.position_key start, 1) ∷ [])).1

  pub record GameState : Type 0 where
    pub board : boards.Board
    pub result : Option GameResult
    pub winner : Option Bool
    pub termination : Option GameTermination
    pub details : Option Details
    pub position_counts : PositionCounts
    pub recorded_stack_size : ℕ

  unfoldable pub reset_position_counts : GameState → GameState
  unfolding recounted
  reset_position_counts s = record s {
    position_counts = recounted s.board;
    recorded_stack_size = length (boards.move_stack s.board);
  }

  unfoldable pub record_position : GameState → GameState
  unfolding reset_position_counts bump
  record_position s =
      let stack_size = length (boards.move_stack s.board) in
      if stack_size == s.recorded_stack_size
      then s
      else if not (stack_size == s.recorded_stack_size + 1)
      then reset_position_counts s
      else record s {
        position_counts = bump (boards.position_key s.board) s.position_counts;
        recorded_stack_size = stack_size;
      }

  abbrev ends : BoardTermination → Option Bool → Option BoardOutcome
  ends termination winner = some (record { termination = termination; winner = winner })

  unfoldable pub current_outcome : GameState → Option BoardOutcome
  unfolding times
  current_outcome s =
      let board = s.board in
      let turn = boards.turn board in
      let seen = times (boards.position_key board) s.position_counts in
      if boards.is_duck board
      then boards.duck_outcome board
      else if boards.is_variant_loss board
      then ends variant_loss (some (not turn))
      else if boards.is_variant_win board
      then ends variant_win (some turn)
      else if boards.is_variant_draw board
      then ends variant_draw none
      else if boards.is_checkmate board
      then ends BoardTermination.checkmate (some (not turn))
      else if boards.is_insufficient_material board
      then ends BoardTermination.insufficient_material none
      else if boards.is_stalemate board
      then ends BoardTermination.stalemate none
      else if boards.is_seventyfive_moves board
      then ends BoardTermination.seventyfive_moves none
      else if leb 5 seen
      then ends BoardTermination.fivefold_repetition none
      else if leb 99 (boards.halfmove_clock board) && boards.can_claim_fifty_moves board
      then ends BoardTermination.fifty_moves none
      else if leb 3 seen
      then ends BoardTermination.threefold_repetition none
      else none

  -- `outcome.result()`
  abbrev pub result_for : Option Bool → GameResult
  result_for none = draw
  result_for (some true) = white_wins
  result_for (some false) = black_wins

  unfoldable pub board_termination : BoardTermination → GameTermination
  board_termination BoardTermination.checkmate = GameTermination.checkmate
  board_termination BoardTermination.stalemate = GameTermination.stalemate
  board_termination BoardTermination.insufficient_material = GameTermination.insufficient_material
  board_termination BoardTermination.seventyfive_moves = GameTermination.seventyfive_moves
  board_termination BoardTermination.fivefold_repetition = GameTermination.fivefold_repetition
  board_termination BoardTermination.fifty_moves = GameTermination.fifty_moves
  board_termination BoardTermination.threefold_repetition = GameTermination.threefold_repetition
  board_termination variant_win = variant_end
  board_termination variant_loss = variant_end
  board_termination variant_draw = variant_end

  -- a win or a loss of Duck chess has a reason of its own
  unfoldable pub termination_of : boards.Board → BoardTermination → GameTermination
  unfolding board_termination
  termination_of board variant_win =
      if boards.is_duck board
      then if boards.missing_king board then king_capture else no_legal_move
      else board_termination variant_win
  termination_of board variant_loss =
      if boards.is_duck board
      then if boards.missing_king board then king_capture else no_legal_move
      else board_termination variant_loss
  termination_of board t = board_termination t

  unfoldable pub with_outcome : GameState → Option BoardOutcome → GameState
  unfolding termination_of
  with_outcome s none = s
  with_outcome s (some outcome) =
      let reason = termination_of s.board outcome.termination in
      record s {
        result = some (result_for outcome.winner);
        winner = outcome.winner;
        termination = some reason;
        details = some (record { reason = reason; text = none });
      }

  unfoldable pub update_from_board : GameState → GameState
  unfolding with_outcome record_position current_outcome
  update_from_board s =
      let recorded = record_position s in with_outcome recorded (current_outcome recorded)

  -- `GameState.__init__` up to `_reset_position_counts`
  unfoldable pub blank_game : boards.Board → GameState
  blank_game board = record {
    board = board;
    result = none;
    winner = none;
    termination = none;
    details = none;
    position_counts = [];
    recorded_stack_size = 0;
  }

  -- `GameState.__init__`
  unfoldable pub new_game : boards.Board → GameState
  unfolding update_from_board reset_position_counts blank_game
  new_game board = update_from_board (reset_position_counts (blank_game board))

  unfoldable pub set_board : boards.Board → GameState → GameState
  unfolding reset_position_counts
  set_board board s = reset_position_counts (record s { board = board })

  unfoldable pub is_finished : GameState → Bool
  is_finished s = not (is_none s.result)

  unfoldable pub set_decisive_result :
      Bool → GameTermination → Option String → GameState → GameState
  set_decisive_result winner termination text s = record s {
    winner = some winner;
    termination = some termination;
    result = some (result_for (some winner));
    details = some (record { reason = termination; text = text });
  }

  unfoldable pub record_timeout : Bool → GameState → GameState
  unfolding set_decisive_result
  record_timeout loser s =
      let winner = not loser in
      if boards.has_insufficient_material winner s.board
      then record s {
        winner = none;
        termination = some GameTermination.insufficient_material;
        result = some draw;
        details = some (record { reason = GameTermination.insufficient_material; text = none });
      }
      else set_decisive_result winner timeout none s

  unfoldable pub record_illegal_move : Bool → String → GameState → GameState
  unfolding set_decisive_result
  record_illegal_move loser move s = set_decisive_result (not loser) illegal_move (some move) s

  unfoldable pub record_engine_error : Bool → String → GameState → GameState
  unfolding set_decisive_result
  record_engine_error loser error s = set_decisive_result (not loser) engine_error (some error) s
