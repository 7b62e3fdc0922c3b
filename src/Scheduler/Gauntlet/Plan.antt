-- ===== src/Scheduler/Gauntlet/Plan.antt =====
-- The games of a gauntlet as one list, in the order of the loops of `generate_gauntlet_games`,
-- cope/runner/scheduler.py.
use native.Mathlib.Nat.{zero-add}
use cope_chess.Prelude.{
  ℕ, ◌*◌, List, [], ◌∷◌, false, refl, sym, ◌≡◌, ap, ◌∙◌, length, flat_map, range, enumerate,
}
use cope_chess.Exec.{for_each, ok}
use cope_chess.Tournament.Records.{TournamentRecord, gauntlet_options}
use cope_chess.Tournament.Store.{Db}
use cope_chess.Tournament.Openings.{opening_ids}
use cope_chess.Scheduler.Create.{GameRequest, Tally, schedule_all, each_schedules}
use cope_chess.Scheduler.Create.Batch.{with_games, schedule_all-eq, committed-ok}
use cope_chess.Scheduler.Gauntlet.{
  opponents_of, gauntlet_request, gauntlet_leg, gauntlet_cycle, gauntlet_games, gauntlet_with,
  generate_gauntlet_games,
}

module _ (hero : ℕ) (opponents : List ℕ) where
  unfoldable pub leg_requests : ℕ → ℕ → List GameRequest
  leg_requests cycle_index leg_index =
      flat_map
        (λ (o : ℕ × ℕ). gauntlet_request hero (length opponents) cycle_index leg_index o.0 o.1 ∷ [])
        (enumerate 1 opponents)

  unfoldable pub gauntlet_cycle_requests : ℕ → List GameRequest
  gauntlet_cycle_requests cycle_index = flat_map (leg_requests cycle_index) (range 2)

  unfoldable pub gauntlet_plan : ℕ → List GameRequest
  gauntlet_plan cycles = flat_map gauntlet_cycle_requests (range cycles)

module _ (tournament : TournamentRecord) (ids : List ℕ) (hero : ℕ) (opponents : List ℕ) where
  gauntlet_leg-eq :
      (cycle_index leg_index : ℕ) (t : Tally)
      → gauntlet_leg tournament ids hero opponents cycle_index leg_index t
        ≡ schedule_all tournament ids (leg_requests hero opponents cycle_index leg_index) t
  unfolding gauntlet_leg leg_requests schedule_all
  gauntlet_leg-eq cycle_index leg_index =
      each_schedules tournament ids _ _ (λ o t. refl) (enumerate 1 opponents)

  gauntlet_cycle-eq :
      (cycle_index : ℕ) (t : Tally)
      → gauntlet_cycle tournament ids hero opponents cycle_index t
        ≡ schedule_all tournament ids (gauntlet_cycle_requests hero opponents cycle_index) t
  unfolding gauntlet_cycle gauntlet_cycle_requests
  gauntlet_cycle-eq cycle_index =
      each_schedules tournament ids _ _ (gauntlet_leg-eq cycle_index) (range 2)

  pub gauntlet_cycles-eq :
      (cycles : ℕ) (db : Db)
      → (for_each
          (range cycles)
          (gauntlet_cycle tournament ids hero opponents)
          (0, db)).1.is_aborted
        ≡ false
      → for_each (range cycles) (gauntlet_cycle tournament ids hero opponents) (0, db) ≡ (
        length (gauntlet_plan hero opponents cycles),
        with_games tournament ids (gauntlet_plan hero opponents cycles) db,
      )
  unfolding gauntlet_plan
  gauntlet_cycles-eq cycles db h =
      let plan = flat_map (gauntlet_cycle_requests hero opponents) (range cycles) in
      let same = each_schedules tournament ids _ _ gauntlet_cycle-eq (range cycles) (0, db) in
      let runs = sym (ap (λ (t : Tally). t.1.is_aborted) same) ∙ h in
      same ∙ (schedule_all-eq tournament ids plan 0 db runs).1 ∙ rw zero-add

-- Where no constraint is broken, a gauntlet creates exactly the games of its plan, in order, with
-- consecutive ids and its openings, and reports their number.
pub generate_gauntlet_games-plan :
    (tournament : TournamentRecord) (hero cycles created : ℕ) (db : Db)
    → tournament.config.format_options ≡ gauntlet_options hero cycles
    → (generate_gauntlet_games tournament db).0 ≡ ok created
    → let opponents = opponents_of hero tournament.config.participants in
      let plan = gauntlet_plan hero opponents cycles in
      let (ids, db') = opening_ids tournament (cycles * length opponents) db in
      generate_gauntlet_games tournament db ≡ (ok (length plan), with_games tournament ids plan db')
unfolding generate_gauntlet_games gauntlet_with gauntlet_games
generate_gauntlet_games-plan tournament hero cycles created db h accepted =
    let opponents = opponents_of hero tournament.config.participants in
    let opened = opening_ids tournament (cycles * length opponents) db in
    let with_options = ap (λ o. gauntlet_with tournament o db) h in
    let (runs, done) = committed-ok db _ created (sym (ap (λ q. q.0) with_options) ∙ accepted) in
    with_options
    ∙ done
    ∙ ap (λ (t : Tally). (ok t.0, t.1))
        (gauntlet_cycles-eq tournament opened.0 hero opponents cycles opened.1 runs)
