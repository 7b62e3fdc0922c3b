-- ===== src/Scheduler/Results.antt =====
-- `_game_winner`, `_match_points` and `_games_by_match` of cope/runner/scheduler.py. Points are
-- counted in halves: 2 for a win, 1 for a draw.
use cope_chess.Prelude.{
  ℕ, ◌+◌, List, [], ◌∷◌, Option, none, some, Bool, true, false, ◌&&◌, ◌||◌, ltb, ◌==◌,
  if◌then◌else◌, keep, sort_by, opt_is,
}
use cope_chess.Tournament.Records.{
  GameRecord, GameResult, white_wins, black_wins, draw, MatchRecord, is_armageddon,
}

-- `a == b` of two values that may be `None`
abbrev pub opt_eq : Option ℕ → Option ℕ → Bool
opt_eq none none = true
opt_eq none (some b) = false
opt_eq (some a) none = false
opt_eq (some a) (some b) = a == b

unfoldable pub winner_of : Option GameResult → ℕ → ℕ → Option ℕ
winner_of (some white_wins) white black = some white
winner_of (some black_wins) white black = some black
winner_of (some draw) white black = none
winner_of none white black = none

unfoldable pub game_winner : GameRecord → Option ℕ
unfolding winner_of
game_winner game = winner_of game.result game.white_engine_id game.black_engine_id

abbrev pub is_draw : Option GameResult → Bool
is_draw (some draw) = true
is_draw _ = false

-- what one game adds to the points of the two engines
unfoldable pub add_game : MatchRecord → GameRecord → ℕ × ℕ → ℕ × ℕ
unfolding game_winner
add_game m game (first_points, second_points) =
    if is_armageddon game.tiebreak_kind
    then (first_points, second_points)
    else if is_draw game.result
    then (first_points + 1, second_points + 1)
    else if opt_eq (game_winner game) (some m.engine1_id)
    then (first_points + 2, second_points)
    else if opt_eq (game_winner game) m.engine2_id
    then (first_points, second_points + 2)
    else (first_points, second_points)

unfoldable pub points_from : MatchRecord → List GameRecord → ℕ × ℕ → ℕ × ℕ
unfolding add_game
points_from m [] points = points
points_from m (game ∷ games) points = points_from m games (add_game m game points)

unfoldable pub match_points : MatchRecord → List GameRecord → ℕ × ℕ
unfolding points_from
match_points m games = points_from m games (0, 0)

unfoldable pub number_before : GameRecord → GameRecord → Bool
number_before a b =
    ltb a.game_number b.game_number || (a.game_number == b.game_number && ltb a.id b.id)

-- `_games_by_match(games).get(match_id, ())`
unfoldable pub games_of_match : ℕ → List GameRecord → List GameRecord
unfolding number_before
games_of_match match_id games = sort_by number_before (keep (λ g. opt_is g.match_id match_id) games)
