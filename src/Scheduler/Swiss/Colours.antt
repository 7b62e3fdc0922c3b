-- ===== src/Scheduler/Swiss/Colours.antt =====
-- `_swiss_colours` of cope/runner/scheduler.py: who of two engines has the white pieces first.
use cope_chess.Prelude.{ℕ, ◌+◌, List, [], ◌∷◌, Bool, true, false, ◌==◌, leb, if◌then◌else◌}
use cope_chess.Tournament.Records.{GameRecord}
use cope_chess.Scheduler.Swiss.Pairing.{dist}

pub data Side : Type 0 where
  white black : Side

-- `balances[engine]` is `whites` minus `blacks`; `history` has the last game first
pub record ColourRecord : Type 0 where
  pub whites : ℕ
  pub blacks : ℕ
  pub history : List Side

abbrev pub no_games : ColourRecord
no_games = record { whites = 0; blacks = 0; history = [] }

had_white : ColourRecord → ColourRecord
had_white r = record r { whites = r.whites + 1; history = white ∷ r.history }

had_black : ColourRecord → ColourRecord
had_black r = record r { blacks = r.blacks + 1; history = black ∷ r.history }

-- what the loop over the games gathers for one of the two engines
unfoldable pub colours_from : ℕ → List GameRecord → ColourRecord → ColourRecord
unfolding had_white had_black
colours_from engine_id [] r = r
colours_from engine_id (game ∷ games) r =
    let r' = if game.white_engine_id == engine_id then had_white r else r in
    colours_from engine_id games (if game.black_engine_id == engine_id then had_black r' else r')

-- `history[-1:] == [side]` and `history[-2:] == [side, side]`
unfoldable pub last_white : List Side → Bool
last_white (white ∷ _) = true
last_white _ = false

unfoldable pub last_black : List Side → Bool
last_black (black ∷ _) = true
last_black _ = false

unfoldable pub last_two_white : List Side → Bool
last_two_white (white ∷ white ∷ _) = true
last_two_white _ = false

unfoldable pub last_two_black : List Side → Bool
last_two_black (black ∷ black ∷ _) = true
last_two_black _ = false

-- `cost(white, black)`
unfoldable pub colour_cost : ColourRecord → ColourRecord → ℕ
unfolding last_white last_black last_two_white last_two_black
colour_cost w b =
    dist (w.whites + 1) w.blacks
    + dist b.whites (b.blacks + 1)
    + (if last_white w.history then 2 else 0)
    + (if last_black b.history then 2 else 0)
    + (if last_two_white w.history then 8 else 0)
    + (if last_two_black b.history then 8 else 0)

-- `min` keeps the first of equals
unfoldable pub swiss_colours : ℕ → ℕ → List GameRecord → ℕ × ℕ
unfolding colours_from colour_cost
swiss_colours first second games =
    let r = colours_from first games no_games in
    let s = colours_from second games no_games in
    if leb (colour_cost r s) (colour_cost s r) then (first, second) else (second, first)
