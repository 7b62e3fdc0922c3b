-- ===== src/Scheduler/RoundRobin.antt =====
-- Round-robin tournaments of cope/runner/scheduler.py: `_round_robin_pairings` (the circle
-- method) and `generate_round_robin_games`.
pub mod Plan
pub mod Facing
pub mod Seating
pub mod Colours
pub mod Games
use cope_chess.Prelude.{
  ℕ, zero, suc, ◌+◌, ◌-◌, ◌*◌, ◌/◌, ◌%◌, List, [], ◌∷◌, ◌++◌, Option, none, some, Bool, ◌||◌, ltb,
  leb, ◌==◌, if◌then◌else◌, first, map, length, get_or, range, enumerate, sum, max,
}
use cope_chess.Exec.{Result, ok, err, for_each}
use cope_chess.Tournament.Records.{FormatOptions, round_robin_options, TournamentRecord, GameRecord}
use cope_chess.Tournament.Store.{Db, list_games}
use cope_chess.Tournament.Openings.{opening_ids}
use cope_chess.Scheduler.Errors.{ScheduleError, round_robin_options_invalid}
use cope_chess.Scheduler.Create.{GameRequest, Tally, schedule, committed}

abbrev pub Pairing : Type 0
Pairing = ℕ × ℕ

-- `players`: the participants, and `None` at the end if their number is odd
unfoldable pub seats : List ℕ → List (Option ℕ)
seats participants =
    let players = map some participants in
    if length players % 2 == 1 then players ++ (none ∷ []) else players

-- `players[-1]` and `players[:-1]`, of a list that is not empty
unfoldable pub last_or {ℓ} : {A : Type ℓ} → A → List A → A
last_or d [] = d
last_or d (x ∷ xs) = last_or x xs

unfoldable pub all_but_last {ℓ} : {A : Type ℓ} → List A → List A
all_but_last [] = []
all_but_last (x ∷ []) = []
all_but_last (x ∷ y ∷ ys) = x ∷ all_but_last (y ∷ ys)

-- `[players[0], players[-1], *players[1:-1]]`
unfoldable pub rotate {ℓ} : {A : Type ℓ} → List A → List A
unfolding last_or all_but_last
rotate [] = []
rotate (p ∷ rest) = p ∷ last_or p rest ∷ all_but_last rest

-- one round's `pairings.append`: nothing where one of the two is the empty seat
unfoldable pub pair_up : Bool → Option ℕ → Option ℕ → List Pairing
pair_up even none second = []
pair_up even (some first) none = []
pair_up even (some first) (some second) = (if even then (first, second) else (second, first)) ∷ []

unfoldable pub pair_at : List (Option ℕ) → ℕ → ℕ → List Pairing
unfolding pair_up
pair_at players round_index pair_index =
    pair_up ((round_index + pair_index) % 2 == 0) (get_or players pair_index none)
      (get_or players (length players - 1 - pair_index) none)

unfoldable pub pair_all : List (Option ℕ) → ℕ → List ℕ → List Pairing
pair_all players round_index [] = []
pair_all players round_index (i ∷ indices) =
    pair_at players round_index i ++ pair_all players round_index indices

unfoldable pub round_pairings : List (Option ℕ) → ℕ → List Pairing
round_pairings players round_index = pair_all players round_index (range (length players / 2))

-- the loop over `round_index`, with the rounds that are left
unfoldable pub rounds_from : ℕ → ℕ → List (Option ℕ) → List (List Pairing)
rounds_from zero round_index players = []
rounds_from (suc left) round_index players =
    round_pairings players round_index ∷ rounds_from left (suc round_index) (rotate players)

unfoldable pub round_robin_pairings : List ℕ → List (List Pairing)
unfolding seats rounds_from
round_robin_pairings participants =
    if ltb (length participants) 2
    then []
    else let players = seats participants in rounds_from (length players - 1) 0 players

-- `round_pairing_offsets`
unfoldable pub pairing_offsets : ℕ → List (List Pairing) → List ℕ
pairing_offsets next [] = []
pairing_offsets next (pairings ∷ rest) = next ∷ pairing_offsets (next + length pairings) rest

-- the colours of a pairing in its first and second game
unfoldable pub leg_colours : ℕ → Pairing → Pairing
leg_colours leg_index (white, black) = if leg_index == 1 then (black, white) else (white, black)

-- the game of one leg; `offset` is the opening that the pairing plays
unfoldable pub leg_request : ℕ → ℕ → ℕ → ℕ → Pairing → ℕ → GameRequest
unfolding leg_colours
leg_request cycle_index round_number pair_index offset pairing leg_index = record {
  round_number = round_number;
  pair_index = pair_index;
  white_engine_id = (leg_colours leg_index pairing).0;
  black_engine_id = (leg_colours leg_index pairing).1;
  match_id = none;
  game_number = cycle_index * 2 + leg_index + 1;
  tiebreak_kind = none;
  opening_offset = some offset;
}

-- the loops of `generate_round_robin_games`
module _ (tournament : TournamentRecord) (ids : List ℕ) where
  unfoldable pub play_pairing : ℕ → ℕ → ℕ → ℕ → Pairing → Tally → Tally
  play_pairing cycle_index round_number pair_index offset pairing = for_each (range 2) (λ leg_index.
      schedule tournament ids
        (leg_request cycle_index round_number pair_index offset pairing leg_index))

  unfoldable pub play_round : ℕ → ℕ → ℕ → List Pairing → Tally → Tally
  unfolding play_pairing
  play_round cycle_index round_number first_offset pairings =
      for_each (enumerate 1 pairings)
        (λ p. play_pairing cycle_index round_number p.0 (first_offset + p.0 - 1) p.1)

  unfoldable pub play_cycle : List (List Pairing) → ℕ → Tally → Tally
  unfolding play_round
  play_cycle rounds cycle_index = for_each (enumerate 1 rounds) (λ r.
      play_round cycle_index (r.0 + cycle_index * length rounds)
        (cycle_index * sum (map length rounds) + get_or (pairing_offsets 0 rounds) (r.0 - 1) 0) r.1)

unfoldable pub generate_cycles : TournamentRecord → ℕ → Db → Result ScheduleError ℕ × Db
unfolding committed
generate_cycles tournament cycles db =
    let rounds = round_robin_pairings tournament.config.participants in
    let (ids, db') = opening_ids tournament (cycles * sum (map length rounds)) db in
    committed db (for_each (range cycles) (play_cycle tournament ids rounds) (0, db'))

unfoldable pub generate_with : TournamentRecord → FormatOptions → Db → Result ScheduleError ℕ × Db
unfolding generate_cycles
generate_with tournament (round_robin_options cycles) db = generate_cycles tournament cycles db
generate_with tournament _ db = (err round_robin_options_invalid, db)

unfoldable pub generate_round_robin_games : TournamentRecord → Db → Result ScheduleError ℕ × Db
unfolding generate_with
generate_round_robin_games tournament db =
    generate_with tournament tournament.config.format_options db
