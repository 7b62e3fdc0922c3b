-- ===== src/Scheduler/Swiss/Points.antt =====
-- `_swiss_points` and `_swiss_buchholz` of cope/runner/scheduler.py. Points are counted in halves:
-- 2 for a win, 1 for a draw. `none` is the KeyError of an engine that is no participant.
pub mod Total
use cope_chess.Prelude.{ℕ, ◌+◌, List, [], ◌∷◌, Option, none, some, Bool, ◌==◌, if◌then◌else◌, map}
use cope_chess.Tournament.Records.{
  GameRecord, GameResult, white_wins, black_wins, draw, MatchRecord, is_bye,
}

abbrev pub Points : Type 0
Points = List (ℕ × ℕ)

infixl 5 ◌>>=◌
abbrev pub ◌>>=◌ {ℓ κ} : {A : Type ℓ} {B : Type κ} → Option A → (A → Option B) → Option B
none >>= f = none
some a >>= f = f a

-- `{engine_id: 0.0 for engine_id in participants}`
unfoldable pub zero_points : List ℕ → Points
zero_points [] = []
zero_points (engine_id ∷ rest) = (engine_id, 0) ∷ zero_points rest

cons_to : ℕ × ℕ → Option Points → Option Points
cons_to entry none = none
cons_to entry (some rest) = some (entry ∷ rest)

-- `points[engine_id] += amount`
unfoldable pub add_points : ℕ → ℕ → Points → Option Points
unfolding cons_to
add_points engine_id amount [] = none
add_points engine_id amount ((k, v) ∷ rest) =
    let further = add_points engine_id amount rest in
    if k == engine_id then some ((k, v + amount) ∷ rest) else cons_to (k, v) further

-- `points[engine_id]`
unfoldable pub points_of : ℕ → Points → Option ℕ
points_of engine_id [] = none
points_of engine_id ((k, v) ∷ rest) = if k == engine_id then some v else points_of engine_id rest

unfoldable pub add_result : Option GameResult → ℕ → ℕ → Points → Option Points
add_result (some white_wins) white black points = add_points white 2 points
add_result (some black_wins) white black points = add_points black 2 points
add_result (some draw) white black points = do
  drawn ← add_points white 1 points
  add_points black 1 drawn
add_result none white black points = some points

unfoldable pub add_games : List GameRecord → Points → Option Points
unfolding add_result
add_games [] points = some points
add_games (game ∷ games) points = do
  next ← add_result game.result game.white_engine_id game.black_engine_id points
  add_games games next

unfoldable pub add_byes : List MatchRecord → Points → Option Points
add_byes [] points = some points
add_byes (m ∷ matches) points = do
  next ← (if is_bye m.status then add_points m.engine1_id 2 points else some points)
  add_byes matches next

unfoldable pub swiss_points : List ℕ → List GameRecord → List MatchRecord → Option Points
swiss_points participants games matches = do
  played ← add_games games (zero_points participants)
  add_byes matches played

buchholz_game : Option GameResult → ℕ → ℕ → Points → Points → Option Points
buchholz_game none white black points buchholz = some buchholz
buchholz_game (some result) white black points buchholz = do
  of_black ← points_of black points
  first ← add_points white of_black buchholz
  of_white ← points_of white points
  add_points black of_white first

buchholz_games : List GameRecord → Points → Points → Option Points
unfolding buchholz_game
buchholz_games [] points buchholz = some buchholz
buchholz_games (game ∷ games) points buchholz = do
  next ← buchholz_game game.result game.white_engine_id game.black_engine_id points buchholz
  buchholz_games games points next

-- the parameter `matches` of the source is not used there
unfoldable pub swiss_buchholz : List ℕ → List GameRecord → Points → Option Points
unfolding buchholz_games
swiss_buchholz participants games points = buchholz_games games points (zero_points participants)
