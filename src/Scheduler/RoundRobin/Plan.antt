-- ===== src/Scheduler/RoundRobin/Plan.antt =====
-- The games of a round-robin tournament as one list, in the order of the loops of
-- `generate_round_robin_games`, cope/runner/scheduler.py.
use native.Mathlib.Nat.{zero-add}
use cope_chess.Prelude.{
  ℕ, ◌+◌, ◌-◌, ◌*◌, List, [], ◌∷◌, false, ◌≡◌, refl, sym, ap, ◌∙◌, map, length, flat_map, sum,
  get_or, range, enumerate,
}
use cope_chess.Exec.{for_each, ok}
use cope_chess.Tournament.Records.{TournamentRecord, round_robin_options}
use cope_chess.Tournament.Store.{Db}
use cope_chess.Tournament.Openings.{opening_ids}
use cope_chess.Scheduler.Create.{GameRequest, Tally, schedule_all, each_schedules}
use cope_chess.Scheduler.Create.Batch.{with_games, schedule_all-eq, committed-ok}
use cope_chess.Scheduler.RoundRobin.{
  Pairing, leg_request, play_pairing, play_round, play_cycle, pairing_offsets, round_robin_pairings,
  generate_with, generate_cycles, generate_round_robin_games,
}

unfoldable pub pairing_requests : ℕ → ℕ → ℕ → ℕ → Pairing → List GameRequest
pairing_requests cycle_index round_number pair_index offset pairing =
    leg_request cycle_index round_number pair_index offset pairing 0
    ∷ leg_request cycle_index round_number pair_index offset pairing 1
    ∷ []

unfoldable pub round_requests : ℕ → ℕ → ℕ → List Pairing → List GameRequest
round_requests cycle_index round_number first_offset pairings =
    flat_map
      (λ (p : ℕ × Pairing).
        pairing_requests cycle_index round_number p.0 (first_offset + p.0 - 1) p.1)
      (enumerate 1 pairings)

unfoldable pub cycle_requests : List (List Pairing) → ℕ → List GameRequest
cycle_requests rounds cycle_index =
    flat_map
      (λ (r : ℕ × List Pairing).
        round_requests cycle_index (r.0 + cycle_index * length rounds)
          (cycle_index * sum (map length rounds) + get_or (pairing_offsets 0 rounds) (r.0 - 1) 0)
          r.1)
      (enumerate 1 rounds)

unfoldable pub round_robin_plan : List (List Pairing) → ℕ → List GameRequest
round_robin_plan rounds cycles = flat_map (cycle_requests rounds) (range cycles)

module _ (tournament : TournamentRecord) (ids : List ℕ) where
  play_pairing-eq :
      (cycle_index round_number pair_index offset : ℕ) (pairing : Pairing) (t : Tally)
      → play_pairing tournament ids cycle_index round_number pair_index offset pairing t
        ≡ schedule_all tournament ids
            (pairing_requests cycle_index round_number pair_index offset pairing)
            t
  unfolding play_pairing for_each schedule_all pairing_requests
  play_pairing-eq cycle_index round_number pair_index offset pairing t = refl

  play_round-eq :
      (cycle_index round_number first_offset : ℕ) (pairings : List Pairing) (t : Tally)
      → play_round tournament ids cycle_index round_number first_offset pairings t
        ≡ schedule_all tournament ids
            (round_requests cycle_index round_number first_offset pairings)
            t
  unfolding play_round round_requests
  play_round-eq cycle_index round_number first_offset pairings =
      each_schedules tournament ids _ _
        (λ p t. play_pairing-eq cycle_index round_number p.0 (first_offset + p.0 - 1) p.1 t)
        (enumerate 1 pairings)

  play_cycle-eq :
      (rounds : List (List Pairing)) (cycle_index : ℕ) (t : Tally)
      → play_cycle tournament ids rounds cycle_index t
        ≡ schedule_all tournament ids (cycle_requests rounds cycle_index) t
  unfolding play_cycle cycle_requests
  play_cycle-eq rounds cycle_index =
      each_schedules tournament ids _ _ (λ r t. play_round-eq cycle_index _ _ r.1 t)
        (enumerate 1 rounds)

  pub play_cycles-eq :
      (rounds : List (List Pairing)) (cycles : ℕ) (db : Db)
      → (for_each (range cycles) (play_cycle tournament ids rounds) (0, db)).1.is_aborted ≡ false
      → for_each (range cycles) (play_cycle tournament ids rounds) (0, db) ≡ (
        length (round_robin_plan rounds cycles),
        with_games tournament ids (round_robin_plan rounds cycles) db,
      )
  unfolding round_robin_plan
  play_cycles-eq rounds cycles db h =
      let plan = flat_map (cycle_requests rounds) (range cycles) in
      let same = each_schedules tournament ids _ _ (play_cycle-eq rounds) (range cycles) (0, db) in
      let runs = sym (ap (λ (t : Tally). t.1.is_aborted) same) ∙ h in
      same ∙ (schedule_all-eq tournament ids plan 0 db runs).1 ∙ rw zero-add

-- Where no constraint is broken, a round-robin tournament creates exactly the games of its plan, in
-- order, with consecutive ids and its openings, and reports their number.
pub generate_round_robin_games-plan :
    (tournament : TournamentRecord) (cycles created : ℕ) (db : Db)
    → tournament.config.format_options ≡ round_robin_options cycles
    → (generate_round_robin_games tournament db).0 ≡ ok created
    → let rounds = round_robin_pairings tournament.config.participants in
      let plan = round_robin_plan rounds cycles in
      let (ids, db') = opening_ids tournament (cycles * sum (map length rounds)) db in
      generate_round_robin_games tournament db
      ≡ (ok (length plan), with_games tournament ids plan db')
unfolding generate_round_robin_games generate_with generate_cycles
generate_round_robin_games-plan tournament cycles created db h accepted =
    let rounds = round_robin_pairings tournament.config.participants in
    let opened = opening_ids tournament (cycles * sum (map length rounds)) db in
    let with_options = ap (λ o. generate_with tournament o db) h in
    let (runs, done) = committed-ok db _ created (sym (ap (λ q. q.0) with_options) ∙ accepted) in
    with_options
    ∙ done
    ∙ ap (λ (t : Tally). (ok t.0, t.1))
        (play_cycles-eq tournament opened.0 rounds cycles opened.1 runs)
