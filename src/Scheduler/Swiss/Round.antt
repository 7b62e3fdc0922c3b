-- ===== src/Scheduler/Swiss/Round.antt =====
-- `generate_swiss_round` of cope/runner/scheduler.py: ranking, bye, pairing, and the round's matches
-- and games.
pub mod Everyone
use cope_chess.Prelude.{
  ℕ, zero, suc, ◌+◌, ◌-◌, ◌*◌, ◌/◌, ◌%◌, List, [], ◌∷◌, ◌++◌, Option, none, some, Bool, true, false,
  not, ◌&&◌, ◌||◌, ltb, leb, ◌==◌, if◌then◌else◌, keep, first, elem, map, length, take, drop,
  sort_by, reverse, is_none,
}
use cope_chess.Exec.{Result, ok, err, for_each}
use cope_chess.Tournament.Records.{
  FormatOptions, swiss_options, TournamentRecord, GameRecord, MatchRecord, MatchStatus, is_bye,
}
use cope_chess.Tournament.Store.{Db, list_games, list_tournament_matches, create_tournament_match}
use cope_chess.Tournament.Openings.{opening_ids}
use cope_chess.Scheduler.Errors.{ScheduleError, swiss_options_invalid, key_error}
use cope_chess.Scheduler.Create.{GameRequest, Tally, schedule, committed}
use cope_chess.Scheduler.RoundRobin.{Pairing, last_or}
use cope_chess.Scheduler.Swiss.Points.{Points, points_of, swiss_points, swiss_buchholz}
use cope_chess.Scheduler.Swiss.Pairing.{index_of, opponent_history, swiss_pairings}
use cope_chess.Scheduler.Swiss.Colours.{swiss_colours}

abbrev or_zero : Option ℕ → ℕ
or_zero none = 0
or_zero (some n) = n

-- `points[engine_id]` of a participant, which is a key of the dictionary
abbrev pub points_at : Points → ℕ → ℕ
points_at points engine_id = or_zero (points_of engine_id points)

-- the sort key `(-points, -buchholz, seed)`
ranked_before : (points buchholz seed : ℕ → ℕ) → ℕ → ℕ → Bool
ranked_before points buchholz seed a b =
    ltb (points b) (points a)
    || (points a == points b
        && (ltb (buchholz b) (buchholz a) || (buchholz a == buchholz b && ltb (seed a) (seed b))))

unfoldable pub swiss_ranking : List ℕ → Points → Points → List ℕ
unfolding ranked_before
swiss_ranking participants points buchholz =
    sort_by (ranked_before (points_at points) (points_at buchholz) (index_of participants))
      participants

unfoldable pub previous_byes : List MatchRecord → List ℕ
previous_byes matches =
    map (λ (m : MatchRecord). m.engine1_id)
      (keep (λ m. is_bye m.status && is_none m.engine2_id) matches)

-- `ranked.remove(engine_id)`: the first occurrence
unfoldable pub remove : ℕ → List ℕ → List ℕ
remove a [] = []
remove a (x ∷ xs) = if x == a then xs else x ∷ remove a xs

-- the engine that sits out, chosen from the bottom among those that have not had a bye
unfoldable pub bye_of : List ℕ → List MatchRecord → Option ℕ
unfolding previous_byes
bye_of ranked matches =
    if length ranked % 2 == 1
    then some (elim (first (λ e. not (elem e (previous_byes matches))) (reverse ranked)) [
      | some e ↦ e
      | none ↦ last_or 0 ranked
    ])
    else none

unfoldable pub without_bye : Option ℕ → List ℕ → List ℕ
without_bye none ranked = ranked
without_bye (some engine_id) ranked = remove engine_id ranked

-- `zip(xs, ys, strict=True)` of lists of one length
unfoldable pub zip : List ℕ → List ℕ → List Pairing
zip [] ys = []
zip (x ∷ xs) [] = []
zip (x ∷ xs) (y ∷ ys) = (x, y) ∷ zip xs ys

unfoldable pub round_pairs : ℕ → List ℕ → Points → List GameRecord → List Pairing
unfolding zip
round_pairs round_number players points games =
    let midpoint = length players / 2 in
    if round_number == 1
    then zip (take midpoint players) (drop midpoint players)
    else swiss_pairings players (points_at points) (opponent_history games)

unfoldable pub swiss_request : ℕ → ℕ → ℕ → Pairing → ℕ → GameRequest
swiss_request round_number match_index match_id (white, black) game_number = record {
  round_number = round_number;
  pair_index = match_index;
  white_engine_id = if game_number == 1 then white else black;
  black_engine_id = if game_number == 1 then black else white;
  match_id = some match_id;
  game_number = game_number;
  tiebreak_kind = none;
  opening_offset = some (match_index - 1);
}

module _ (tournament : TournamentRecord) (ids : List ℕ) where
  -- one pairing: its match and its two games. The state is `match_index` and the tally.
  unfoldable pub play_swiss_pairing : List GameRecord → ℕ → Pairing → ℕ × Tally → ℕ × Tally
  play_swiss_pairing games round_number (a, b) (match_index, (created, db)) =
      let colours = swiss_colours a b games in
      let (match_id, db') =
        create_tournament_match
          (record {
            tournament_id = tournament.id;
            round = round_number;
            match_index = match_index;
            engine1_id = a;
            engine2_id = some b;
            status = MatchStatus.pending;
            winner_engine_id = none;
          })
          db in
      (
        match_index + 1,
        for_each (1 ∷ 2 ∷ [])
            (λ game_number.
              schedule tournament ids
                (swiss_request round_number match_index match_id colours game_number))
            (created, db'),
      )

unfoldable pub play_bye : TournamentRecord → ℕ → Option ℕ → ℕ × Tally → Tally
play_bye tournament round_number none (match_index, t) = t
play_bye tournament round_number (some engine_id) (match_index, (created, db)) = (
  created,
  (create_tournament_match
      (record {
        tournament_id = tournament.id;
        round = round_number;
        match_index = match_index;
        engine1_id = engine_id;
        engine2_id = none;
        status = MatchStatus.bye;
        winner_engine_id = some engine_id;
      })
      db).1,
)

unfoldable pub swiss_round_with :
    TournamentRecord
    → ℕ
    → List GameRecord
    → List MatchRecord
    → Points
    → Points
    → Db
    → Result ScheduleError ℕ × Db
unfolding play_swiss_pairing play_bye committed
swiss_round_with tournament round_number games matches points buchholz db =
    let ranked = swiss_ranking tournament.config.participants points buchholz in
    let bye = bye_of ranked matches in
    let players = without_bye bye ranked in
    let pairings = round_pairs round_number players points games in
    let (ids, db') = opening_ids tournament (length pairings) db in
    committed db (
      play_bye tournament round_number bye
        (for_each pairings (play_swiss_pairing tournament ids games round_number) (1, (0, db'))))

swiss_scores :
    TournamentRecord
    → ℕ
    → List GameRecord
    → List MatchRecord
    → Option Points
    → Db
    → Result ScheduleError ℕ × Db
swiss_scores tournament round_number games matches none db = (err key_error, db)
swiss_scores tournament round_number games matches (some points) db =
    elim (swiss_buchholz tournament.config.participants games points) [
      | none ↦ (err key_error, db)
      | some buchholz ↦ swiss_round_with tournament round_number games matches points buchholz db
    ]

swiss_round_of : TournamentRecord → FormatOptions → ℕ → Db → Result ScheduleError ℕ × Db
unfolding swiss_scores swiss_round_with
swiss_round_of tournament (swiss_options rounds) round_number db =
    let games = list_games tournament.id db in
    let matches = list_tournament_matches tournament.id db in
    if ltb round_number 1 || ltb rounds round_number
    then (ok 0, db)
    else swiss_scores tournament round_number games matches
        (swiss_points tournament.config.participants games matches) db
swiss_round_of tournament _ round_number db = (err swiss_options_invalid, db)

unfoldable pub generate_swiss_round : TournamentRecord → ℕ → Db → Result ScheduleError ℕ × Db
unfolding swiss_round_of
generate_swiss_round tournament round_number db =
    swiss_round_of tournament tournament.config.format_options round_number db
