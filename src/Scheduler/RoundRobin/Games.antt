-- ===== src/Scheduler/RoundRobin/Games.antt =====
-- The games that `generate_round_robin_games` of cope/runner/scheduler.py adds to the database.
use native.Mathlib.Nat.{suc-mul, mul_comm}
use cope_chess.Prelude.{
  ℕ, suc, ◌+◌, ◌-◌, ◌*◌, ◌%◌, ◌≤◌, List, [], ◌∷◌, ◌++◌, ◌≡◌, refl, sym, ap, ◌∙◌, arith, All, sum,
  map, length, length-map, length-append, perm_length, if◌then◌else◌, ◌==◌, inl, inr, Option-cases,
  Bool-cases,
}
use mathlib.Core.Path.{subst}
use cope_chess.Exec.{ok}
use cope_chess.Tournament.Records.{TournamentRecord, GameRecord, round_robin_options}
use cope_chess.Tournament.Store.{Db, GameRow, game_of_row}
use cope_chess.Tournament.Openings.{opening_ids, opening_ids_of}
use cope_chess.Scheduler.Create.{GameRequest, row_of}
use cope_chess.Scheduler.Create.Batch.{numbered, with_games}
use cope_chess.Scheduler.Create.Counts.{whites, blacks}
use cope_chess.Scheduler.RoundRobin.{Pairing, round_robin_pairings, generate_round_robin_games}
use cope_chess.Scheduler.RoundRobin.Facing.{flat, length-flat}
use cope_chess.Scheduler.RoundRobin.Seating.{
  Seats, round_robin_pairings-Seats, length-round_robin_pairings,
}
use cope_chess.Scheduler.RoundRobin.Colours.{whites-round_robin_plan, length-round_robin_plan}
use cope_chess.Scheduler.RoundRobin.Plan.{round_robin_plan, generate_round_robin_games-plan}

-- how often an engine has the white and the black pieces in a table of games
unfoldable pub games_as_white : ℕ → List GameRecord → ℕ
games_as_white e [] = 0
games_as_white e (g ∷ gs) = (if g.white_engine_id == e then 1 else 0) + games_as_white e gs

unfoldable pub games_as_black : ℕ → List GameRecord → ℕ
games_as_black e [] = 0
games_as_black e (g ∷ gs) = (if g.black_engine_id == e then 1 else 0) + games_as_black e gs

module _ (tournament : TournamentRecord) (ids : List ℕ) (e : ℕ) where
  games_as_white-numbered :
      (id : ℕ) (rs : List GameRequest)
      → games_as_white e (numbered id (map (row_of tournament ids) rs)) ≡ whites e rs
  unfolding games_as_white numbered game_of_row row_of whites
  games_as_white-numbered id [] = refl
  games_as_white-numbered id (r ∷ rs) = omega (arith, games_as_white-numbered (suc id) rs)

  games_as_black-numbered :
      (id : ℕ) (rs : List GameRequest)
      → games_as_black e (numbered id (map (row_of tournament ids) rs)) ≡ blacks e rs
  unfolding games_as_black numbered game_of_row row_of blacks
  games_as_black-numbered id [] = refl
  games_as_black-numbered id (r ∷ rs) = omega (arith, games_as_black-numbered (suc id) rs)

length-numbered : (id : ℕ) (rs : List GameRow) → length (numbered id rs) ≡ length rs
unfolding numbered
length-numbered id [] = refl
length-numbered id (r ∷ rs) = omega (arith, length-numbered (suc id) rs)

opening_ids-games :
    (t : TournamentRecord) (n : ℕ) (db : Db) → (opening_ids t n db).1.games ≡ db.games
unfolding opening_ids opening_ids_of
opening_ids-games t n db = elim (Option-cases t.config.opening_suite_id) [
  | inl e ↦ rw e refl
  | inr s ↦ rw s.1 (ground arith)
]

-- the number of boards in the rounds
boards :
    (participants : List ℕ) (rounds : List (List Pairing))
    → All (Seats participants) rounds
    → sum (map length rounds) * 2 ≡ length rounds * (length participants - length participants % 2)
boards participants [] s = omega arith
boards participants (r ∷ rounds) (s, rest) =
    let two = length-flat r in
    let all_seats = perm_length s.everyone in
    let out = length-append (flat r) s.sitting_out in
    let more = suc-mul (length rounds) (length participants - length participants % 2) in
    omega (arith, two, all_seats, out, s.at_most_one, more, boards participants rounds rest)

total :
    (participants : List ℕ)
    → 2 ≤ length participants
    → sum (map length (round_robin_pairings participants)) * 2
      ≡ length participants * (length participants - 1)
total participants h =
    let seated =
      boards participants (round_robin_pairings participants)
        (round_robin_pairings-Seats participants) in
    let many = length-round_robin_pairings participants h in
    let n = length participants in
    let r = length (round_robin_pairings participants) in
    elim (Bool-cases (n % 2 == 0)) [
      | inl even ↦
          let rounds : r ≡ n - 1 = ground (arith, even, many) in
          let seats : n - n % 2 ≡ n = ground (arith, even) in
          seated
          ∙ ap (λ (x : ℕ). x * (n - n % 2)) rounds
          ∙ ap (λ (x : ℕ). (n - 1) * x) seats
          ∙ mul_comm (n - 1) n
      | inr odd ↦
          let rounds : r ≡ n = ground (arith, odd, many) in
          let seats : n - n % 2 ≡ n - 1 = ground (arith, odd) in
          seated ∙ ap (λ (x : ℕ). x * (n - n % 2)) rounds ∙ ap (λ (x : ℕ). n * x) seats
    ]

-- What a round-robin tournament adds.
pub record IsFair (n cycles created : ℕ) (before after : Db) : Type 0 where
  pub added : List GameRecord
  pub games_are : after.games ≡ before.games ++ added
  pub all_reported : length added ≡ created
  pub two_per_pair : created ≡ cycles * (n * (n - 1))
  pub balanced : (e : ℕ) → games_as_white e added ≡ games_as_black e added

-- When two or more participants play a round robin and its games are created without breaking a
-- constraint, the games are added after those that were there, their number is the one reported
-- and, for n participants, n · (n − 1) for each cycle, and every engine has White as often as
-- Black in them.
pub generate_round_robin_games-IsFair :
    (tournament : TournamentRecord) (cycles created : ℕ) (db : Db)
    → tournament.config.format_options ≡ round_robin_options cycles
    → 2 ≤ length tournament.config.participants
    → (generate_round_robin_games tournament db).0 ≡ ok created
    → IsFair
        (length tournament.config.participants)
        cycles
        created
        db
        (generate_round_robin_games tournament db).1
unfolding with_games
generate_round_robin_games-IsFair tournament cycles created db h enough accepted =
    let participants = tournament.config.participants in
    let rounds = round_robin_pairings participants in
    let plan = round_robin_plan rounds cycles in
    let opened = opening_ids tournament (cycles * sum (map length rounds)) db in
    let same = generate_round_robin_games-plan tournament cycles created db h accepted in
    let planned : length plan ≡ created = let both = sym (ap (λ r. r.0) same) ∙ accepted in cc in
    subst (λ r. IsFair (length participants) cycles created db r.1) (sym same)
      (record {
        added = numbered opened.1.next_game_id (map (row_of tournament opened.0) plan);
        games_are =
            ap (λ gs. gs ++ numbered opened.1.next_game_id (map (row_of tournament opened.0) plan))
              (opening_ids-games tournament (cycles * sum (map length rounds)) db);
        all_reported = length-numbered _ _ ∙ length-map _ plan ∙ planned;
        two_per_pair =
            sym planned
            ∙ length-round_robin_plan rounds cycles
            ∙ ap (λ (k : ℕ). cycles * k) (total participants enough);
        balanced = λ e.
            games_as_white-numbered tournament opened.0 e opened.1.next_game_id plan
            ∙ whites-round_robin_plan e rounds cycles
            ∙ sym (games_as_black-numbered tournament opened.0 e opened.1.next_game_id plan);
      })
