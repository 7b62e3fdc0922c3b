-- ===== src/Events/Odds/Step.antt =====
-- What a step of the odds match does.
use cope_chess.Prelude.{
  ℕ, ◌+◌, ◌<◌, List, [], ◌∷◌, some, Bool, true, false, not, ◌||◌, leb, ◌==◌, ◌≡◌, refl, any, length,
  get_elem?, Bool-cases, Option-cases, inl, inr, arith,
}
use cope_chess.Exec.{Result, ok, err}
use cope_chess.Tournament.Records.{TournamentRecord, GameRecord, Opening, is_finished}
use cope_chess.Tournament.Store.{Db, get_tournament, list_games, create_game}
use cope_chess.Tournament.Status.{is_unstarted, is_running}
use cope_chess.Scheduler.Create.{committed}
use cope_chess.Scheduler.Errors.{ScheduleError}
use cope_chess.Events.Odds.{
  odds_steps, won_by, odds_row, suite_openings, create_odds_game, odds_game, odds_of, odds_with,
  advance_odds,
}

module _ (tournament : TournamentRecord) (db : Db) where
  -- nothing, an error, or the next game after the first engine has won all the games so far
  pub data OddsStep : Result ScheduleError ℕ × Db → Type 0 where
    stays : OddsStep (ok 0, db)
    refuses : (e : ScheduleError) → OddsStep (err e, db)
    plays :
        (wakwak fish : ℕ) (opening : Opening)
        → tournament.config.participants ≡ wakwak ∷ fish ∷ []
        → any (λ (g : GameRecord). not (is_finished g.status)) (list_games tournament.id db) ≡ false
        → any (λ g. not (won_by wakwak g)) (list_games tournament.id db) ≡ false
        → length (list_games tournament.id db) < odds_steps
        → get_elem?
            (suite_openings tournament.config.opening_suite_id db)
            (length (list_games tournament.id db))
          ≡ some opening
        → (create_game
            (odds_row tournament wakwak fish (length (list_games tournament.id db) + 1) opening)
            db).1.is_aborted
          ≡ false
        → OddsStep (
          ok 1,
          (create_game
              (odds_row tournament wakwak fish (length (list_games tournament.id db) + 1) opening)
              db).1,
        )

  created-OddsStep :
      (wakwak fish : ℕ) (opening : Opening)
      → tournament.config.participants ≡ wakwak ∷ fish ∷ []
      → any (λ (g : GameRecord). not (is_finished g.status)) (list_games tournament.id db) ≡ false
      → any (λ g. not (won_by wakwak g)) (list_games tournament.id db) ≡ false
      → length (list_games tournament.id db) < odds_steps
      → get_elem?
          (suite_openings tournament.config.opening_suite_id db)
          (length (list_games tournament.id db))
        ≡ some opening
      → OddsStep (
          create_odds_game tournament wakwak fish
            (length (list_games tournament.id db) + 1)
            (some opening)
            db)
  unfolding create_odds_game committed
  created-OddsStep wakwak fish opening e f won more there =
      let number = length (list_games tournament.id db) + 1 in
      let row = odds_row tournament wakwak fish number opening in
      elim (Bool-cases (create_game row db).1.is_aborted) [
        | inl h ↦ rw h (refuses _)
        | inr h ↦ rw h (plays wakwak fish opening e f won more there h)
      ]

  game-OddsStep :
      (participants : List ℕ)
      → tournament.config.participants ≡ participants
      → any (λ (g : GameRecord). not (is_finished g.status)) (list_games tournament.id db) ≡ false
      → OddsStep (odds_game tournament participants db)
  unfolding odds_game
  game-OddsStep [] e f = refuses _
  game-OddsStep (a ∷ []) e f = refuses _
  game-OddsStep (a ∷ b ∷ c ∷ rest) e f = refuses _
  game-OddsStep (wakwak ∷ fish ∷ []) e f =
      let games = list_games tournament.id db in
      let openings = suite_openings tournament.config.opening_suite_id db in
      elim (Bool-cases (any (λ g. not (won_by wakwak g)) games)) [
        | inl lost ↦ rw lost stays
        | inr won ↦ elim (Bool-cases (leb odds_steps (length games))) [
          | inl over ↦ rw (won, over) stays
          | inr more ↦ elim (Bool-cases (length openings == odds_steps)) [
            | inr few ↦ rw (won, more, few) (refuses _)
            | inl all_there ↦
                rw (won, more, all_there)
                  (elim (Option-cases (get_elem? openings (length games))) [
                    | inl gone ↦ rw (gone, create_odds_game) (refuses _)
                    | inr there ↦
                        rw (there.1, create_odds_game)
                          (created-OddsStep wakwak fish there.0 e f won (ground arith) there.1)
                  ])
          ]
        ]
      ]

  of-OddsStep : OddsStep (odds_of tournament db)
  unfolding odds_of
  of-OddsStep = elim (Bool-cases (is_unstarted tournament.status || is_running tournament.status)) [
    | inr e ↦ rw e stays
    | inl e ↦
        elim (Bool-cases
          (any (λ (g : GameRecord). not (is_finished g.status)) (list_games tournament.id db))) [
            | inl f ↦ rw (e, f) stays
            | inr f ↦ rw (e, f) (game-OddsStep tournament.config.participants refl f)
          ]
  ]

-- A step of a tournament that exists and has an odds event leaves the database as it is, except that
-- it may create one game: the next one, when every game so far is finished and won by the first
-- participant and there are fewer than 22.
pub advance_odds-OddsStep :
    (odds_event : ℕ → Db → Bool) (tournament_id : ℕ) (tournament : TournamentRecord) (db : Db)
    → get_tournament tournament_id db ≡ some tournament
    → odds_event tournament_id db ≡ true
    → (r : Result ScheduleError ℕ × Db) × (advance_odds odds_event tournament_id db ≡ some r)
      × OddsStep tournament db r
unfolding advance_odds odds_with
advance_odds-OddsStep odds_event tournament_id tournament db there is_event =
    rw (there, is_event) (odds_of tournament db, refl, of-OddsStep tournament db)
