-- ===== src/Scheduler/LiveRoster.antt =====
-- `_generate_round_robin_participant_games` and `_generate_gauntlet_participant_games` of
-- cope/runner/scheduler.py: the games of an engine that joins a running tournament.
use cope_chess.Prelude.{
  ℕ, suc, ◌+◌, ◌-◌, ◌*◌, List, [], ◌∷◌, Option, none, some, ◌||◌, ◌==◌, if◌then◌else◌, first,
  length, range, enumerate, max, elem, not,
}
use cope_chess.Exec.{Result, err, for_each}
use cope_chess.Tournament.Records.{
  FormatOptions, round_robin_options, gauntlet_options, TournamentRecord, GameRecord,
}
use cope_chess.Tournament.Store.{Db, list_games}
use cope_chess.Tournament.Openings.{opening_ids}
use cope_chess.Scheduler.Errors.{
  ScheduleError, round_robin_options_invalid, gauntlet_options_invalid, hero_added_as_opponent,
  not_in_list,
}
use cope_chess.Scheduler.Create.{GameRequest, Tally, schedule, committed}
use cope_chess.Scheduler.RoundRobin.{Pairing, round_robin_pairings, leg_request}
use cope_chess.Scheduler.Gauntlet.{opponents_of, gauntlet_colours}

-- the dictionary `next_pair_index`, with the default 1 of its `get`
abbrev pub NextPair : Type 0
NextPair = ℕ → ℕ

unfoldable pub next_pairs_from : List GameRecord → NextPair → NextPair
next_pairs_from [] next = next
next_pairs_from (g ∷ games) next =
    next_pairs_from games
      (λ round. if round == g.round then max (next round) (g.pair_index + 1) else next round)

unfoldable pub next_pair_index : List GameRecord → NextPair
unfolding next_pairs_from
next_pair_index games = next_pairs_from games (λ round. 1)

-- `next_pair_index[round_number] = pair_index + 1`
abbrev pub taken : ℕ → NextPair → NextPair
taken round_number next round = if round == round_number then next round + 1 else next round

-- what the loops carry: `opening_offset`, `next_pair_index`, `created_games` and the database
abbrev pub RosterState : Type 0
RosterState = ℕ × (NextPair × Tally)

-- `next((item for item in pairings if engine_id in item), None)`
unfoldable pub pairing_of : ℕ → List Pairing → Option Pairing
pairing_of engine_id pairings =
    first (λ (p : Pairing). p.0 == engine_id || p.1 == engine_id) pairings

module _ (tournament : TournamentRecord) (ids : List ℕ) where
  unfoldable pub join_pairing : ℕ → ℕ → Option Pairing → RosterState → RosterState
  join_pairing cycle_index round_number none s = s
  join_pairing cycle_index round_number (some pairing) (offset, (next, t)) = (
    offset + 1,
    (
      taken round_number next,
      for_each (range 2)
          (λ leg_index.
            schedule tournament ids
              (leg_request cycle_index round_number (next round_number) offset pairing leg_index))
          t,
    ),
  )

  unfoldable pub join_cycle : ℕ → List (List Pairing) → ℕ → RosterState → RosterState
  unfolding join_pairing pairing_of
  join_cycle engine_id rounds cycle_index =
      for_each (enumerate 1 rounds) (λ r.
        join_pairing cycle_index (r.0 + cycle_index * length rounds) (pairing_of engine_id r.1))

  unfoldable pub join_request : ℕ → ℕ → ℕ → ℕ → ℕ → ℕ → ℕ → GameRequest
  join_request hero engine_id opponent_index cycle_index game_number round_number pair_index =
      let colours = gauntlet_colours hero engine_id game_number opponent_index in
      record {
        round_number = round_number;
        pair_index = pair_index;
        white_engine_id = colours.0;
        black_engine_id = colours.1;
        match_id = none;
        game_number = game_number;
        tiebreak_kind = none;
        opening_offset = some cycle_index;
      }

  unfoldable pub join_leg : ℕ → ℕ → ℕ → ℕ → ℕ → ℕ → NextPair × Db → NextPair × Db
  unfolding join_request
  join_leg hero engine_id opponent_count opponent_index cycle_index leg_index (next, db) =
      let game_number = cycle_index * 2 + leg_index + 1 in
      let round_number = (game_number - 1) * opponent_count + opponent_index in
      (
        taken round_number next,
        (schedule tournament ids
            (join_request hero engine_id opponent_index cycle_index game_number round_number
              (next round_number))
            (0, db)).1,
      )

join_round_robin : TournamentRecord → ℕ → FormatOptions → Db → Result ScheduleError ℕ × Db
unfolding join_cycle next_pair_index
join_round_robin tournament engine_id (round_robin_options cycles) db =
    let rounds = round_robin_pairings tournament.config.participants in
    let opponent_count = length tournament.config.participants - 1 in
    let (ids, db') = opening_ids tournament (cycles * opponent_count) db in
    let start : RosterState = (0, (next_pair_index (list_games tournament.id db'), (0, db'))) in
    let (offset, (next, t)) =
      for_each (range cycles) (join_cycle tournament ids engine_id rounds) start in
    committed db t
join_round_robin tournament engine_id _ db = (err round_robin_options_invalid, db)

unfoldable pub generate_round_robin_participant_games :
    TournamentRecord → ℕ → Db → Result ScheduleError ℕ × Db
unfolding join_round_robin
generate_round_robin_participant_games tournament engine_id db =
    join_round_robin tournament engine_id tournament.config.format_options db

-- `xs.index(x)`, of an element of the list
unfoldable pub position_of : List ℕ → ℕ → ℕ
position_of [] e = 0
position_of (x ∷ xs) e = let rest = position_of xs e in if x == e then 0 else suc rest

join_gauntlet : TournamentRecord → ℕ → FormatOptions → Db → Result ScheduleError ℕ × Db
unfolding join_leg next_pair_index position_of
join_gauntlet tournament engine_id (gauntlet_options hero_engine cycles) db =
    let opponents = opponents_of hero_engine tournament.config.participants in
    let opponent_index = position_of opponents engine_id + 1 in
    let (ids, db') = opening_ids tournament cycles db in
    let start : NextPair × Db = (next_pair_index (list_games tournament.id db'), db') in
    let (next, db'') =
      for_each (range cycles)
        (λ cycle_index. for_each (range 2) (
          join_leg tournament ids hero_engine engine_id (length opponents) opponent_index
            cycle_index))
        start in
    if engine_id == hero_engine
    then (err hero_added_as_opponent, db)
    else if not (elem engine_id opponents)
    then (err not_in_list, db)
    else committed db (cycles * 2, db'')
join_gauntlet tournament engine_id _ db = (err gauntlet_options_invalid, db)

unfoldable pub generate_gauntlet_participant_games :
    TournamentRecord → ℕ → Db → Result ScheduleError ℕ × Db
unfolding join_gauntlet
generate_gauntlet_participant_games tournament engine_id db =
    join_gauntlet tournament engine_id tournament.config.format_options db
