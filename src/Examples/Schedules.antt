-- ===== src/Examples/Schedules.antt =====
-- Round robins and gauntlets of three engines.
use cope_chess.Prelude.{ℕ, ◌≡◌, refl, ◌+◌, ◌*◌, List, [], ◌∷◌, All, length, arith}
use cope_chess.Scheduler.Create.Counts.{whites, blacks, meetings}
use cope_chess.Scheduler.RoundRobin.{
  round_robin_pairings, generate_round_robin_games, generate_with, generate_cycles, play_cycle,
  play_round, play_pairing, pairing_offsets, leg_request, leg_colours, seats, rounds_from,
  round_pairings, pair_all, pair_at, pair_up, rotate, last_or, all_but_last,
}
use cope_chess.Scheduler.RoundRobin.Games.{IsFair, generate_round_robin_games-IsFair}
use cope_chess.Scheduler.Create.{committed, schedule, create_scheduled_game, row_of, pick_opening}
use cope_chess.Tournament.Store.{create_game, takes_game, insert_game}
use cope_chess.Tournament.Openings.{opening_ids, opening_ids_of, list_suite_opening_ids}
use cope_chess.Exec.{for_each, ok, err}
use cope_chess.Scheduler.Errors.{constraint_violated}
use cope_chess.Scheduler.RoundRobin.Seating.{
  Seats, round_robin_pairings-Seats, length-round_robin_pairings,
}
use cope_chess.Scheduler.Gauntlet.{opponents_of}
use cope_chess.Scheduler.Gauntlet.Plan.{gauntlet_plan}
use cope_chess.Scheduler.Gauntlet.Colours.{count, gauntlet_plan-opponent, gauntlet_plan-hero}
use cope_chess.Examples.Data.{cup, fresh_db}

abbrev three : List ℕ
three = 4 ∷ 5 ∷ 6 ∷ []

cup_games : (generate_round_robin_games cup fresh_db).0 ≡ ok 12
unfolding generate_round_robin_games generate_with generate_cycles committed round_robin_pairings
    play_cycle play_round play_pairing pairing_offsets leg_request leg_colours seats rounds_from
    round_pairings pair_all pair_at pair_up rotate last_or all_but_last schedule
    create_scheduled_game row_of pick_opening create_game takes_game insert_game opening_ids
    opening_ids_of list_suite_opening_ids for_each
cup_games = refl

-- A second time the first game takes the place of one that is there.
cup-refused :
    (generate_round_robin_games cup (generate_round_robin_games cup fresh_db).1).0
    ≡ err constraint_violated
unfolding generate_round_robin_games generate_with generate_cycles committed round_robin_pairings
    play_cycle play_round play_pairing pairing_offsets leg_request leg_colours seats rounds_from
    round_pairings pair_all pair_at pair_up rotate last_or all_but_last schedule
    create_scheduled_game row_of pick_opening create_game takes_game insert_game opening_ids
    opening_ids_of list_suite_opening_ids for_each
cup-refused = refl

generate_round_robin_games-IsFair_example :
    IsFair 3 2 12 fresh_db (generate_round_robin_games cup fresh_db).1
generate_round_robin_games-IsFair_example =
    generate_round_robin_games-IsFair cup 2 12 fresh_db refl (omega arith) cup_games

round_robin_pairings-Seats_example : All (Seats three) (round_robin_pairings three)
round_robin_pairings-Seats_example = round_robin_pairings-Seats three

length-round_robin_pairings_example : length (round_robin_pairings three) + 1 ≡ 4
length-round_robin_pairings_example = length-round_robin_pairings three (omega arith)

gauntlet_plan-opponent_example :
    let opponents = opponents_of 5 three in
    let plan = gauntlet_plan 5 opponents 3 in
    (whites 6 plan ≡ 3 * count 6 opponents) × (blacks 6 plan ≡ 3 * count 6 opponents)
gauntlet_plan-opponent_example = gauntlet_plan-opponent 6 5 3 three (λ e. omega (arith, e))

gauntlet_plan-hero_example :
    let opponents = opponents_of 5 three in
    let plan = gauntlet_plan 5 opponents 3 in
    (meetings 5 6 plan ≡ 3 * count 6 opponents) × (meetings 6 5 plan ≡ 3 * count 6 opponents)
gauntlet_plan-hero_example = gauntlet_plan-hero 6 5 3 three (λ e. omega (arith, e))
