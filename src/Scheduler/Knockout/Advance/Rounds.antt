-- ===== src/Scheduler/Knockout/Advance/Rounds.antt =====
-- The rounds of the matches in the database, and what settling matches in `_advance_knockout`
-- does to them.
use cope_chess.Prelude.{
  ℕ, ◌+◌, ◌/◌, List, [], ◌∷◌, Option, none, some, Bool, true, ◌≡◌, refl, ap, ◌∙◌, arith, any,
  any-map, any_ext, Bool-cases, inl, inr, Option-cases, first, range, ◌&&◌, ◌||◌,
}
use cope_chess.Exec.{for_each}
use cope_chess.Tournament.Records.{
  TournamentRecord, GameRecord, MatchRecord, TiebreakKind, extra_pair, is_pending, is_armageddon,
}
use cope_chess.Tournament.Store.{Db, create_game, insert_game, finish_tournament_match, finish_row}
use cope_chess.Tournament.Openings.{opening_ids, opening_ids_of}
use cope_chess.Scheduler.Create.{GameRequest, Tally, schedule, create_scheduled_game}
use cope_chess.Scheduler.Results.{match_points, games_of_match}
use cope_chess.Scheduler.Knockout.Resolve.{
  append_knockout_games, append_with, resolve_knockout_match, resolve_with, resolve_points,
}
use cope_chess.Scheduler.Knockout.Advance.{
  Progress, settle_match, settle_matches, after_resolve, not_ready,
}

-- some match's tournament and round pass a test
abbrev pub seen : (ℕ → ℕ → Bool) → Db → Bool
seen P db = any (λ (m : MatchRecord). P m.tournament_id m.round) db.matches

pub opening_ids-matches :
    (t : TournamentRecord) (n : ℕ) (db : Db) → (opening_ids t n db).1.matches ≡ db.matches
unfolding opening_ids opening_ids_of
opening_ids-matches t n db = elim (Option-cases t.config.opening_suite_id) [
  | inl e ↦ rw e refl
  | inr s ↦ rw s.1 (ground arith)
]

pub schedule-matches :
    (tournament : TournamentRecord) (ids : List ℕ) (r : GameRequest) (t : Tally)
    → (schedule tournament ids r t).1.matches ≡ t.1.matches
unfolding schedule create_scheduled_game create_game insert_game
schedule-matches tournament ids r t = ground arith

for_each-matches {ℓ} :
    {A : Type ℓ} (body : A → Tally → Tally)
    → ((x : A) (t : Tally) → (body x t).1.matches ≡ t.1.matches)
    → (xs : List A) (t : Tally) → (for_each xs body t).1.matches ≡ t.1.matches
unfolding for_each
for_each-matches body each [] t = refl
for_each-matches body each (x ∷ xs) t = for_each-matches body each xs (body x t) ∙ each x t

append_knockout_games-matches :
    (tournament : TournamentRecord) (m : MatchRecord) (games : List GameRecord) (count : ℕ)
    (kind : TiebreakKind) (db : Db)
    → (append_knockout_games tournament m games count kind db).1.matches ≡ db.matches
unfolding append_knockout_games append_with
append_knockout_games-matches tournament m games count kind db = elim (Option-cases m.engine2_id) [
  | inl e ↦ rw e refl
  | inr s ↦ rw s.1 (
      for_each-matches _ (λ offset t. schedule-matches tournament _ _ t) (range count) _
      ∙ opening_ids-matches tournament ((count + 1) / 2) db)
]

resolve_points-matches :
    (tournament : TournamentRecord) (m : MatchRecord) (games : List GameRecord) (points : ℕ × ℕ)
    (db : Db)
    → (resolve_points tournament m games points db).1.matches ≡ db.matches
unfolding resolve_points
resolve_points-matches tournament m games points db =
    ground (arith, append_knockout_games-matches tournament m games 2 extra_pair db)

resolve-matches :
    (tournament : TournamentRecord) (m : MatchRecord) (games : List GameRecord) (db : Db)
    → (resolve_knockout_match tournament m games db).1.matches ≡ db.matches
unfolding resolve_knockout_match resolve_with
resolve-matches tournament m games db =
    elim (Option-cases (first (λ (g : GameRecord). is_armageddon g.tiebreak_kind) games)) [
      | inl e ↦ rw e (resolve_points-matches tournament m games (match_points m games) db)
      | inr s ↦ rw s.1 refl
    ]

abbrev pub SameRounds : Db → Db → Type 0
SameRounds before after = (P : ℕ → ℕ → Bool) → seen P after ≡ seen P before

finish-SameRounds :
    (match_id : ℕ) (winner : Option ℕ) (db : Db)
    → SameRounds db (finish_tournament_match match_id winner db)
unfolding finish_tournament_match finish_row
finish-SameRounds match_id winner db P =
    any-map (λ (m : MatchRecord). P m.tournament_id m.round) (finish_row match_id winner) db.matches
    ∙ any_ext _ _ db.matches (λ m. ground arith)

after_resolve-SameRounds :
    (m : MatchRecord) (p : Progress) (r : (Option ℕ × ℕ) × Db)
    → r.1.matches ≡ p.db.matches
    → SameRounds p.db (after_resolve m p r).db
unfolding after_resolve
after_resolve-SameRounds m p ((none, created), db) h P = ap (any _) h
after_resolve-SameRounds m p ((some winner, created), db) h P =
    finish-SameRounds m.id (some winner) db P ∙ ap (any _) h

settle_match-SameRounds :
    (tournament : TournamentRecord) (games : List GameRecord) (m : MatchRecord) (p : Progress)
    → SameRounds p.db (settle_match tournament games m p).db
unfolding settle_match
settle_match-SameRounds tournament games m p P =
    let match_games = games_of_match m.id games in
    elim (Bool-cases (is_pending m.status)) [
      | inr e ↦ rw e refl
      | inl e ↦ elim (Bool-cases (not_ready match_games)) [
        | inl f ↦ rw (e, f) refl
        | inr f ↦
            rw (e, f)
              (after_resolve-SameRounds m p _ (resolve-matches tournament m match_games p.db) P)
      ]
    ]

pub settle_matches-SameRounds :
    (tournament : TournamentRecord) (games : List GameRecord) (ms : List MatchRecord) (p : Progress)
    → SameRounds p.db (settle_matches tournament games ms p).db
unfolding settle_matches
settle_matches-SameRounds tournament games [] p P = refl
settle_matches-SameRounds tournament games (m ∷ ms) p P =
    settle_matches-SameRounds tournament games ms (settle_match tournament games m p) P
    ∙ settle_match-SameRounds tournament games m p P

-- a match that is not ready makes the loop wait
after_resolve-waiting :
    (m : MatchRecord) (p : Progress) (r : (Option ℕ × ℕ) × Db)
    → p.waiting ≡ true
    → (after_resolve m p r).waiting ≡ true
unfolding after_resolve
after_resolve-waiting m p ((none, created), db) h = refl
after_resolve-waiting m p ((some winner, created), db) h = h

settle_match-waiting :
    (tournament : TournamentRecord) (games : List GameRecord) (m : MatchRecord) (p : Progress)
    → (p.waiting || (is_pending m.status && not_ready (games_of_match m.id games))) ≡ true
    → (settle_match tournament games m p).waiting ≡ true
unfolding settle_match
settle_match-waiting tournament games m p h =
    let match_games = games_of_match m.id games in
    let later = after_resolve-waiting m p (resolve_knockout_match tournament m match_games p.db) in
    elim (Bool-cases (is_pending m.status)) [
      | inr e ↦ rw e (ground arith)
      | inl e ↦ elim (Bool-cases (not_ready match_games)) [
        | inl f ↦ rw (e, f) refl
        | inr f ↦ rw (e, f) (later (ground arith))
      ]
    ]

pub settle_matches-waiting :
    (tournament : TournamentRecord) (games : List GameRecord) (ms : List MatchRecord) (p : Progress)
    → (p.waiting
        || any
            (λ (m : MatchRecord). is_pending m.status && not_ready (games_of_match m.id games))
            ms)
      ≡ true
    → (settle_matches tournament games ms p).waiting ≡ true
unfolding settle_matches
settle_matches-waiting tournament games [] p h = ground arith
settle_matches-waiting tournament games (m ∷ ms) p h =
    let step = settle_match-waiting tournament games m p in
    let next = settle_matches-waiting tournament games ms (settle_match tournament games m p) in
    ground (arith, step, next)
