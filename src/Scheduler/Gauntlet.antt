-- ===== src/Scheduler/Gauntlet.antt =====
-- Gauntlets of cope/runner/scheduler.py: a hero plays every opponent.
pub mod Plan
pub mod Colours
use cope_chess.Prelude.{
  ℕ, suc, ◌+◌, ◌-◌, ◌*◌, ◌%◌, List, [], ◌∷◌, Option, none, some, Bool, not, ◌==◌, if◌then◌else◌,
  keep, length, range, enumerate,
}
use cope_chess.Exec.{Result, ok, err, for_each}
use cope_chess.Tournament.Records.{FormatOptions, gauntlet_options, TournamentRecord}
use cope_chess.Tournament.Store.{Db}
use cope_chess.Tournament.Openings.{opening_ids}
use cope_chess.Scheduler.Errors.{ScheduleError, gauntlet_options_invalid}
use cope_chess.Scheduler.Create.{GameRequest, Tally, schedule, committed}

-- `[engine_id for engine_id in participants if engine_id != hero]`
unfoldable pub opponents_of : ℕ → List ℕ → List ℕ
opponents_of hero participants = keep (λ engine_id. not (engine_id == hero)) participants

-- `white, black`
unfoldable pub gauntlet_colours : ℕ → ℕ → ℕ → ℕ → ℕ × ℕ
gauntlet_colours hero opponent game_number opponent_index =
    if (game_number + opponent_index) % 2 == 0 then (hero, opponent) else (opponent, hero)

unfoldable pub gauntlet_request : ℕ → ℕ → ℕ → ℕ → ℕ → ℕ → GameRequest
unfolding gauntlet_colours
gauntlet_request hero opponent_count cycle_index leg_index opponent_index opponent =
    let game_number = cycle_index * 2 + leg_index + 1 in
    let colours = gauntlet_colours hero opponent game_number opponent_index in
    record {
      round_number = (game_number - 1) * opponent_count + opponent_index;
      pair_index = 1;
      white_engine_id = colours.0;
      black_engine_id = colours.1;
      match_id = none;
      game_number = game_number;
      tiebreak_kind = none;
      opening_offset = some (cycle_index * opponent_count + opponent_index - 1);
    }

-- the loops of `generate_gauntlet_games`
module _ (tournament : TournamentRecord) (ids : List ℕ) (hero : ℕ) (opponents : List ℕ) where
  unfoldable pub gauntlet_leg : ℕ → ℕ → Tally → Tally
  gauntlet_leg cycle_index leg_index = for_each (enumerate 1 opponents) (λ o.
      schedule tournament ids
        (gauntlet_request hero (length opponents) cycle_index leg_index o.0 o.1))

  unfoldable pub gauntlet_cycle : ℕ → Tally → Tally
  unfolding gauntlet_leg
  gauntlet_cycle cycle_index = for_each (range 2) (gauntlet_leg cycle_index)

unfoldable pub gauntlet_games : TournamentRecord → ℕ → ℕ → Db → Result ScheduleError ℕ × Db
unfolding committed
gauntlet_games tournament hero cycles db =
    let opponents = opponents_of hero tournament.config.participants in
    let (ids, db') = opening_ids tournament (cycles * length opponents) db in
    committed db (for_each (range cycles) (gauntlet_cycle tournament ids hero opponents) (0, db'))

unfoldable pub gauntlet_with : TournamentRecord → FormatOptions → Db → Result ScheduleError ℕ × Db
unfolding gauntlet_games
gauntlet_with tournament (gauntlet_options hero cycles) db =
    gauntlet_games tournament hero cycles db
gauntlet_with tournament _ db = (err gauntlet_options_invalid, db)

unfoldable pub generate_gauntlet_games : TournamentRecord → Db → Result ScheduleError ℕ × Db
unfolding gauntlet_with
generate_gauntlet_games tournament db = gauntlet_with tournament tournament.config.format_options db
