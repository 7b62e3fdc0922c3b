-- ===== src/Scheduler/Knockout/Advance/Created.antt =====
-- What `_create_knockout_round` adds to the database.
use cope_chess.Prelude.{
  ℕ, ◌+◌, List, [], ◌∷◌, ◌++◌, none, some, true, false, ◌||◌, Bool-cases, inl, inr, ltb, ◌≡◌, refl,
  ap, ◌∙◌, sym, arith, any, any-append, append-nil, append_assoc,
}
use cope_chess.Exec.{for_each}
use cope_chess.Tournament.Records.{TournamentRecord, GameRecord, MatchRecord}
use cope_chess.Tournament.Store.{
  Db, GameRow, MatchRow, create_game, insert_game, takes_game, create_tournament_match,
  insert_match, takes_match, game_of_row, match_of_row,
}
use cope_chess.Scheduler.Create.{GameRequest, Tally, schedule, create_scheduled_game, row_of}
use cope_chess.Scheduler.Knockout.Round.{
  Entrants, RoundState, bye_row, match_row, enter_pairing, enter_bye, enter_match, knockout_game,
  knockout_request,
}

-- rows are added, matches only of rounds up to `round`, and an aborted transaction stays so
pub record Grows (round : ℕ) (before after : Db) : Type 0 where
  pub new_games : List GameRecord
  pub new_matches : List MatchRecord
  pub games_are : after.games ≡ before.games ++ new_games
  pub matches_are : after.matches ≡ before.matches ++ new_matches
  pub no_later : any (λ (m : MatchRecord). ltb round m.round) new_matches ≡ false
  pub runs : after.is_aborted ≡ false → before.is_aborted ≡ false

Grows-refl :
    (round : ℕ) (before after : Db)
    → after.games ≡ before.games
    → after.matches ≡ before.matches
    → (after.is_aborted ≡ false → before.is_aborted ≡ false)
    → Grows round before after
Grows-refl round before after g m r = record {
  new_games = [];
  new_matches = [];
  games_are = g ∙ sym (append-nil before.games);
  matches_are = m ∙ sym (append-nil before.matches);
  no_later = refl;
  runs = r;
}

Grows-trans : (round : ℕ) (a b c : Db) → Grows round a b → Grows round b c → Grows round a c
Grows-trans round a b c f g = record {
  new_games = f.new_games ++ g.new_games;
  new_matches = f.new_matches ++ g.new_matches;
  games_are =
      g.games_are
      ∙ ap (λ l. l ++ g.new_games) f.games_are
      ∙ append_assoc a.games f.new_games g.new_games;
  matches_are =
      g.matches_are
      ∙ ap (λ l. l ++ g.new_matches) f.matches_are
      ∙ append_assoc a.matches f.new_matches g.new_matches;
  no_later =
      any-append (λ (m : MatchRecord). ltb round m.round) f.new_matches g.new_matches
      ∙ ground (arith, f.no_later, g.no_later);
  runs = λ h. f.runs (g.runs h);
}

-- an aborted transaction has the rows that it had
Grows-aborted : (round : ℕ) (db : Db) → Grows round db (record db { is_aborted = true })
Grows-aborted round db = Grows-refl round db _ refl refl (λ h. absurd cc)

create_game-Grows : (round : ℕ) (r : GameRow) (db : Db) → Grows round db (create_game r db).1
unfolding create_game insert_game
create_game-Grows round r db = elim (Bool-cases (db.is_aborted || any (takes_game r) db.games)) [
  | inl e ↦ rw e (Grows-aborted round db)
  | inr e ↦ rw e (record {
    new_games = game_of_row db.next_game_id r ∷ [];
    new_matches = [];
    games_are = refl;
    matches_are = sym (append-nil db.matches);
    no_later = refl;
    runs = λ h. h;
  })
]

create_tournament_match-Grows :
    (round : ℕ) (r : MatchRow) (db : Db)
    → r.round ≡ round
    → Grows round db (create_tournament_match r db).1
unfolding create_tournament_match insert_match match_of_row
create_tournament_match-Grows round r db same =
    elim (Bool-cases (db.is_aborted || any (takes_match r) db.matches)) [
      | inl e ↦ rw e (Grows-aborted round db)
      | inr e ↦ rw e (record {
        new_games = [];
        new_matches = match_of_row db.next_match_id r ∷ [];
        games_are = sym (append-nil db.games);
        matches_are = refl;
        no_later = ground (arith, same);
        runs = λ h. h;
      })
    ]

module _ (tournament : TournamentRecord) (ids : List ℕ) (round : ℕ) where
  schedule-Grows : (r : GameRequest) (t : Tally) → Grows round t.1 (schedule tournament ids r t).1
  unfolding schedule create_scheduled_game
  schedule-Grows r t = create_game-Grows round (row_of tournament ids r) t.1

  enter_bye-Grows :
      (index entrant : ℕ) (s : RoundState)
      → Grows round s.1.1 (enter_bye tournament ids round index entrant s).1.1
  unfolding enter_bye bye_row
  enter_bye-Grows index entrant (pair_index, (created, db)) =
      create_tournament_match-Grows round (bye_row tournament round index entrant) db refl

  enter_match-Grows :
      (index a b : ℕ) (s : RoundState)
      → Grows round s.1.1 (enter_match tournament ids round index a b s).1.1
  unfolding enter_match match_row for_each knockout_game
  enter_match-Grows index a b (pair_index, (created, db)) =
      let made = create_tournament_match (match_row tournament round index a b) db in
      let one = knockout_request round index made.0 a b pair_index 1 in
      let two = knockout_request round index made.0 a b (pair_index + 1) 2 in
      let after_one = schedule tournament ids one (created, made.1) in
      let after_two = schedule tournament ids two after_one in
      Grows-trans round db made.1 after_two.1
        (create_tournament_match-Grows round (match_row tournament round index a b) db refl)
        (Grows-trans round made.1 after_one.1 after_two.1 (schedule-Grows one (created, made.1))
          (schedule-Grows two after_one))

  enter_pairing-Grows :
      (index : ℕ) (p : Entrants) (s : RoundState)
      → Grows round s.1.1 (enter_pairing tournament ids round index p s).1.1
  unfolding enter_pairing
  enter_pairing-Grows index (none, none) s = Grows-refl round _ _ refl refl (λ h. h)
  enter_pairing-Grows index (some a, none) s = enter_bye-Grows index a s
  enter_pairing-Grows index (none, some b) s = enter_bye-Grows index b s
  enter_pairing-Grows index (some a, some b) s = enter_match-Grows index a b s

  pub pairings-Grow :
      (ps : List (ℕ × Entrants)) (s : RoundState)
      → Grows round s.1.1 (for_each ps (λ p. enter_pairing tournament ids round p.0 p.1) s).1.1
  unfolding for_each
  pairings-Grow [] s = Grows-refl round _ _ refl refl (λ h. h)
  pairings-Grow (p ∷ ps) s =
      Grows-trans round _ _ _ (enter_pairing-Grows p.0 p.1 s)
        (pairings-Grow ps (enter_pairing tournament ids round p.0 p.1 s))
