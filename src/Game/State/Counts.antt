-- ===== src/Game/State/Counts.antt =====
-- The repetition counts of `GameState`, cope/tournament/game_state.py, and a recount from the
-- start of the game.
use native.Mathlib.Nat.{add-zero}
use cope_chess.Prelude.{
  ℕ, ◌+◌, List, [], ◌∷◌, ◌++◌, Option, none, some, true, false, not, ◌≡◌, ◌↔◌, refl, ap, ◌∙◌, sym,
  arith, ◌==◌, if◌then◌else◌, length, length-append, Bool-cases, inl, inr,
}
use cope_chess.Game.Boards.{Boards}
use cope_chess.Game.Boards.{BoardOutcome}
use cope_chess.Game.State.{
  PositionCounts, times, bump, replay, recounted, GameState, reset_position_counts, record_position,
  current_outcome, with_outcome, update_from_board, blank_game, new_game,
}

module _ (boards : Boards) where
  unfoldable pub pushes : List boards.Move → boards.Board → boards.Board
  pushes [] board = board
  pushes (move ∷ moves) board = pushes moves (boards.push move board)

  -- what is relied on of boards: `push` extends the stack, the stack leads from the root to the board,
  -- and `same_key` is equality
  pub record AreBoards : Type 0 where
    pub push_stack :
        (move : boards.Move) (board : boards.Board)
        → boards.move_stack (boards.push move board) ≡ boards.move_stack board ++ (move ∷ [])
    pub push_root :
        (move : boards.Move) (board : boards.Board)
        → boards.root (boards.push move board) ≡ boards.root board
    pub whole :
        (board : boards.Board) → pushes (boards.move_stack board) (boards.root board) ≡ board
    pub key_equality : (a b : boards.Key) → (boards.same_key a b ≡ true) ↔ (a ≡ b)

  replay-board :
      (moves : List boards.Move) (board : boards.Board) (counts : PositionCounts boards)
      → (replay boards moves board counts).0 ≡ pushes moves board
  unfolding replay pushes
  replay-board [] board counts = refl
  replay-board (move ∷ moves) board counts = replay-board moves (boards.push move board) _

  replay-append :
      (moves : List boards.Move) (move : boards.Move) (board : boards.Board)
      (counts : PositionCounts boards)
      → (replay boards (moves ++ (move ∷ [])) board counts).1
        ≡ bump boards
            (boards.position_key (boards.push move (pushes moves board)))
            (replay boards moves board counts).1
  unfolding replay pushes
  replay-append [] move board counts = refl
  replay-append (first ∷ moves) move board counts =
      replay-append moves move (boards.push first board) _

  -- the counts are those of the board
  pub record IsCounted (s : GameState boards) : Type 0 where
    pub counts_are : s.position_counts ≡ recounted boards s.board
    pub size_is : s.recorded_stack_size ≡ length (boards.move_stack s.board)

  with_outcome-counts :
      (s : GameState boards) (o : Option BoardOutcome)
      → IsCounted s
      → IsCounted (with_outcome boards s o)
  unfolding with_outcome
  with_outcome-counts s none h = h
  with_outcome-counts s (some o) h = record { counts_are = h.counts_are; size_is = h.size_is }

  pub reset-IsCounted : (s : GameState boards) → IsCounted (reset_position_counts boards s)
  unfolding reset_position_counts
  reset-IsCounted s = record { counts_are = refl; size_is = refl }

  module _ (laws : AreBoards) where
    recounted-push :
        (move : boards.Move) (board : boards.Board)
        → recounted boards (boards.push move board)
          ≡ bump boards (boards.position_key (boards.push move board)) (recounted boards board)
    unfolding recounted
    recounted-push move board =
        let from = λ (start : boards.Board) (moves : List boards.Move).
          (replay boards moves start ((boards.position_key start, 1) ∷ [])).1 in
        let stack = boards.move_stack board in
        ap (from (boards.root (boards.push move board))) (laws.push_stack move board)
        ∙ ap (λ r. from r (stack ++ (move ∷ []))) (laws.push_root move board)
        ∙ replay-append stack move (boards.root board)
            ((boards.position_key (boards.root board), 1) ∷ [])
        ∙ ap (λ b. bump boards (boards.position_key (boards.push move b)) (recounted boards board))
            (laws.whole board)

    -- `_record_position` after one more move
    record-IsCounted :
        (s : GameState boards) (move : boards.Move)
        → IsCounted s
        → IsCounted (record_position boards (record s { board = boards.push move s.board }))
    unfolding record_position
    record-IsCounted s move h =
        let longer : length (boards.move_stack (boards.push move s.board))
            ≡ s.recorded_stack_size + 1 =
          ap length (laws.push_stack move s.board)
          ∙ omega (arith, h.size_is, length-append (boards.move_stack s.board) (move ∷ [])) in
        let stack_size = length (boards.move_stack (boards.push move s.board)) in
        let grown : (stack_size == s.recorded_stack_size) ≡ false = ground (arith, longer) in
        let by_one : not (stack_size == s.recorded_stack_size + 1) ≡ false =
          ground (arith, longer) in
        rw (grown, by_one)
          (record {
            counts_are =
                ap (bump boards (boards.position_key (boards.push move s.board))) h.counts_are
                ∙ sym (recounted-push move s.board);
            size_is = refl;
          })

    -- After a move, `update_from_board` keeps the repetition counts what a recount gives.
    pub update_from_board-IsCounted :
        (s : GameState boards) (move : boards.Move)
        → IsCounted s
        → IsCounted (update_from_board boards (record s { board = boards.push move s.board }))
    unfolding update_from_board
    update_from_board-IsCounted s move h =
        let next : GameState boards = record s { board = boards.push move s.board } in
        with_outcome-counts (record_position boards next)
          (current_outcome boards (record_position boards next)) (record-IsCounted s move h)

    record_again : (s : GameState boards) → IsCounted s → record_position boards s ≡ s
    unfolding record_position
    record_again s h =
        let same : (length (boards.move_stack s.board) == s.recorded_stack_size) ≡ true =
          ground (arith, h.size_is) in
        rw same refl

    update_again : (s : GameState boards) → IsCounted s → IsCounted (update_from_board boards s)
    unfolding update_from_board
    update_again s h =
        with_outcome-counts (record_position boards s)
          (current_outcome boards (record_position boards s)) (rw (record_again s h) h)

    pub new_game-IsCounted : (board : boards.Board) → IsCounted (new_game boards board)
    unfolding new_game
    new_game-IsCounted board =
        update_again (reset_position_counts boards (blank_game boards board))
          (reset-IsCounted (blank_game boards board))

  -- a game after some more moves
  unfoldable pub play : List boards.Move → GameState boards → GameState boards
  play [] s = s
  play (move ∷ moves) s =
      play moves (update_from_board boards (record s { board = boards.push move s.board }))

  unfoldable pub keys_after : List boards.Move → boards.Board → List boards.Key
  keys_after [] board = []
  keys_after (move ∷ moves) board =
      boards.position_key (boards.push move board) ∷ keys_after moves (boards.push move board)

  -- the keys of all positions of a game
  unfoldable pub position_keys : boards.Board → List boards.Key
  unfolding keys_after
  position_keys board =
      boards.position_key (boards.root board)
      ∷ keys_after (boards.move_stack board) (boards.root board)

  unfoldable pub occurrences : boards.Key → List boards.Key → ℕ
  occurrences key [] = 0
  occurrences key (k ∷ keys) = (if boards.same_key k key then 1 else 0) + occurrences key keys

  module _ (laws : AreBoards) where
    bump-times :
        (key j : boards.Key) (counts : PositionCounts boards)
        → times boards key (bump boards j counts)
          ≡ times boards key counts + (if boards.same_key j key then 1 else 0)
    unfolding times bump
    bump-times key j [] = ground arith
    bump-times key j ((k, n) ∷ counts) =
        let equal = λ (a b : boards.Key). laws.key_equality a b in
        let rest = bump-times key j counts in
        elim (Bool-cases (boards.same_key k j)) [
          | inl e ↦
              let same : boards.same_key k key ≡ boards.same_key j key =
                ap (λ x. boards.same_key x key) ((equal k j).0 e) in
              rw (e, same) (ground arith)
          | inr e ↦ elim (Bool-cases (boards.same_key k key)) [
            | inr f ↦ rw (e, f) rest
            | inl f ↦ elim (Bool-cases (boards.same_key j key)) [
              | inr g ↦ rw (e, f, g) (ground arith)
              | inl g ↦
                  let both : boards.same_key k j ≡ true =
                    (equal k j).1 ((equal k key).0 f ∙ sym ((equal j key).0 g)) in
                  absurd (ground arith)
            ]
          ]
        ]

    replay-times :
        (key : boards.Key) (moves : List boards.Move) (board : boards.Board)
        (counts : PositionCounts boards)
        → times boards key (replay boards moves board counts).1
          ≡ times boards key counts + occurrences key (keys_after moves board)
    unfolding replay occurrences keys_after
    replay-times key [] board counts = sym (add-zero _)
    replay-times key (move ∷ moves) board counts = omega (
      arith,
      replay-times key moves (boards.push move board)
          (bump boards (boards.position_key (boards.push move board)) counts),
      bump-times key (boards.position_key (boards.push move board)) counts,
    )

    play-IsCounted :
        (moves : List boards.Move) (s : GameState boards) → IsCounted s → IsCounted (play moves s)
    unfolding play
    play-IsCounted [] s h = h
    play-IsCounted (move ∷ moves) s h =
        play-IsCounted moves _ (update_from_board-IsCounted laws s move h)

    -- However a game goes on from its first position, its state counts for each key how many of the
    -- positions of the game have it, given that a push extends the move stack, that the stack leads
    -- from the root to the board, and that keys have an equality test.
    pub play-counts :
        (board : boards.Board) (moves : List boards.Move) (key : boards.Key)
        → let s = play moves (new_game boards board) in
          times boards key s.position_counts ≡ occurrences key (position_keys s.board)
    unfolding recounted position_keys occurrences times
    play-counts board moves key =
        let s = play moves (new_game boards board) in
        let root = boards.root s.board in
        let counted =
          play-IsCounted moves (new_game boards board) (new_game-IsCounted laws board) in
        ap (times boards key) counted.counts_are
        ∙ replay-times key (boards.move_stack s.board) root ((boards.position_key root, 1) ∷ [])
