-- ===== src/Scheduler/Knockout/Advance/Terminates.antt =====
-- The `while True` loop of `_advance_knockout` of cope/runner/scheduler.py.
use cope_chess.Prelude.{
  ℕ, ◌∷◌, some, Bool, true, false, ◌&&◌, ◌==◌, ltb, ◌≡◌, refl, ap, ◌∙◌, sym, arith, any, any_mono,
  Bool-cases, any-keep, inl, inr, keep, ◌≤◌, max_of-bound, max_of-reaches, List-cases,
}
use cope_chess.Tournament.Records.{
  TournamentRecord, MatchRecord, FormatOptions, knockout_options, round_robin_options,
  swiss_options, gauntlet_options, is_pending,
}
use cope_chess.Tournament.Store.{Db, list_games, list_tournament_matches}
use cope_chess.Tournament.Queries.{any-list_tournament_matches}
use cope_chess.Scheduler.Advance.{current_round}
use cope_chess.Scheduler.Results.{games_of_match}
use cope_chess.Scheduler.Knockout.Advance.{
  Turn, done, again, Progress, AdvanceResult, after_matches, turn_with, knockout_turn,
  knockout_loop, advance_knockout, advance_knockout_with, settle_matches, not_ready,
}
use cope_chess.Scheduler.Knockout.Advance.Rounds.{seen, settle_matches-waiting}
use cope_chess.Scheduler.Knockout.Advance.Ends.{later, Ends, ended, goes_on, knockout_turn-Ends}
use cope_chess.Scheduler.Knockout.Advance.Live.{has_live, live_match, live-not_ready}

abbrev stops : ℕ → Db → ℕ → MatchRecord → Bool
stops tournament_id db round m =
    m.round == round
    && (is_pending m.status && not_ready (games_of_match m.id (list_games tournament_id db)))

live-stops :
    (tournament_id round : ℕ) (db : Db)
    → has_live tournament_id round db ≡ true
    → any (stops tournament_id db round) (list_tournament_matches tournament_id db) ≡ true
live-stops tournament_id round db live =
    any-list_tournament_matches (stops tournament_id db round) tournament_id db
    ∙ any_mono (live_match tournament_id round db.games) _ db.matches
        (λ m h. ground (arith, live-not_ready tournament_id m.id db)) live

live-current_round :
    (tournament_id round : ℕ) (db : Db)
    → has_live tournament_id round db ≡ true
    → seen (later tournament_id round) db ≡ false
    → current_round (list_tournament_matches tournament_id db) ≡ round
live-current_round tournament_id round db live bounded =
    let listed = list_tournament_matches tournament_id db in
    let below : current_round listed ≤ round =
      max_of-bound (λ (m : MatchRecord). m.round) round listed
        (any-list_tournament_matches (λ (m : MatchRecord). ltb round m.round) tournament_id db
          ∙ bounded) in
    let above : round ≤ current_round listed =
      max_of-reaches (λ (m : MatchRecord). m.round) round listed
        (any_mono (stops tournament_id db round) _ listed (λ m h. ground arith)
          (live-stops tournament_id round db live)) in
    omega (arith, below, above)

-- a live last round makes the loop return
live-returns :
    (tournament : TournamentRecord) (total round : ℕ) (db : Db)
    → has_live tournament.id round db ≡ true
    → seen (later tournament.id round) db ≡ false
    → (r : AdvanceResult) × (knockout_turn tournament total db ≡ done r)
unfolding knockout_turn
live-returns tournament total round db live bounded =
    elim (List-cases (list_tournament_matches tournament.id db)) [
      | inl nil ↦ rw (nil, turn_with) (_, refl)
      | inr (m, ms, cons) ↦
          let last = current_round (m ∷ ms) in
          let start : Progress = record { waiting = false; total_created = total; db = db } in
          let games = list_games tournament.id db in
          let ready = keep (λ (x : MatchRecord). x.round == last) (m ∷ ms) in
          let settled = settle_matches tournament games ready start in
          let same : round ≡ last =
            sym (live-current_round tournament.id round db live bounded) ∙ ap current_round cons in
          let stuck =
            λ (x : MatchRecord). is_pending x.status && not_ready (games_of_match x.id games) in
          let waits : settled.waiting ≡ true = settle_matches-waiting tournament games ready start (
            any-keep stuck (λ (x : MatchRecord). x.round == last) (m ∷ ms)
            ∙ ap (any (stops tournament.id db last)) (sym cons)
            ∙ ap
                (λ (r : ℕ).
                  any (stops tournament.id db r) (list_tournament_matches tournament.id db))
                (sym same)
            ∙ live-stops tournament.id round db live) in
          elim (Bool-cases settled.db.is_aborted) [
            | inl f ↦ rw (cons, turn_with, f) (_, refl)
            | inr f ↦ rw (cons, turn_with, f, after_matches, waits) (_, refl)
          ]
    ]

second_turn :
    (tournament : TournamentRecord) (t : Turn)
    → Ends tournament.id t
    → (r : AdvanceResult) × ((elim t [
      | done r ↦ some r
      | again total db ↦ knockout_loop 1 tournament total db
    ])
        ≡ some r)
unfolding knockout_loop
second_turn tournament _ (ended r) = (r, refl)
second_turn tournament _ (goes_on total db round live bounded) =
    let (r, e) = live-returns tournament total round db live bounded in
    rw (knockout_loop, e) (r, refl)

advance-returns :
    (tournament : TournamentRecord) (options : FormatOptions) (db : Db)
    → tournament.config.format_options ≡ options
    → (r : AdvanceResult) × (advance_knockout_with 2 tournament options db ≡ some r)
unfolding advance_knockout_with knockout_loop
advance-returns tournament knockout_options db e =
    second_turn tournament (knockout_turn tournament 0 db) (knockout_turn-Ends tournament 0 db e)
advance-returns tournament (round_robin_options cycles) db e = (_, refl)
advance-returns tournament (swiss_options rounds) db e = (_, refl)
advance-returns tournament (gauntlet_options _ _) db e = (_, refl)

-- `_advance_knockout` always returns: its loop comes round at most twice, since a round that it has
-- created waits for its games.
pub advance_knockout-returns :
    (tournament : TournamentRecord) (db : Db)
    → (r : AdvanceResult) × (advance_knockout 2 tournament db ≡ some r)
unfolding advance_knockout
advance_knockout-returns tournament db =
    advance-returns tournament tournament.config.format_options db refl
