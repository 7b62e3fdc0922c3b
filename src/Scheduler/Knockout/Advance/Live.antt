-- ===== src/Scheduler/Knockout/Advance/Live.antt =====
-- A round with a match that has an unfinished game, in `_advance_knockout`.
use cope_chess.Prelude.{
  ℕ, suc, ◌+◌, List, [], ◌∷◌, ◌++◌, some, Bool, true, false, not, ◌&&◌, ◌==◌, ◌≡◌, refl, ap, ◌∙◌,
  arith, any, any-append, any_mono, any-keep, any-sort_by, opt_is, keep, sort_by,
}
use cope_chess.Exec.{for_each}
use cope_chess.Tournament.Records.{
  TournamentRecord, GameRecord, MatchRecord, is_pending, is_finished,
}
use cope_chess.Tournament.Store.{
  Db, create_game, insert_game, create_tournament_match, insert_match, game_of_row, match_of_row,
  list_games, game_before,
}
use cope_chess.Tournament.Inserts.{create_game-inserts, create_tournament_match-inserts}
use cope_chess.Scheduler.Create.{schedule, create_scheduled_game, row_of}
use cope_chess.Scheduler.Results.{games_of_match, number_before}
use cope_chess.Scheduler.Knockout.Round.{
  Entrants, RoundState, match_row, enter_pairing, enter_match, knockout_game, knockout_request,
}
use cope_chess.Scheduler.Knockout.Advance.{not_ready}
use cope_chess.Scheduler.Knockout.Advance.Created.{Grows, pairings-Grow}

abbrev pub live_game : ℕ → ℕ → GameRecord → Bool
live_game tournament_id match_id g =
    g.tournament_id == tournament_id && (opt_is g.match_id match_id && not (is_finished g.status))

abbrev pub live_match : ℕ → ℕ → List GameRecord → MatchRecord → Bool
live_match tournament_id round games m =
    (m.tournament_id == tournament_id && m.round == round)
    && (is_pending m.status && any (live_game tournament_id m.id) games)

abbrev pub has_live : ℕ → ℕ → Db → Bool
has_live tournament_id round db = any (live_match tournament_id round db.games) db.matches

has_live-Grows :
    (tournament_id round : ℕ) (before after : Db)
    → Grows round before after
    → has_live tournament_id round before ≡ true
    → has_live tournament_id round after ≡ true
has_live-Grows tournament_id round before after g h =
    let more =
      any_mono (live_match tournament_id round before.games)
        (live_match tournament_id round after.games) before.matches
        (λ m e.
          rw g.games_are
            (ground (arith, any-append (live_game tournament_id m.id) before.games g.new_games)))
        h in
    ap (any (live_match tournament_id round after.games)) g.matches_are
    ∙ any-append (live_match tournament_id round after.games) before.matches g.new_matches
    ∙ ground (arith, more)

module _ (tournament : TournamentRecord) (ids : List ℕ) (round : ℕ) where
  enter_match-live :
      (index a b : ℕ) (s : RoundState)
      → (enter_match tournament ids round index a b s).1.1.is_aborted ≡ false
      → has_live tournament.id round (enter_match tournament ids round index a b s).1.1 ≡ true
  unfolding enter_match for_each knockout_game schedule create_scheduled_game match_row match_of_row
      row_of game_of_row knockout_request insert_game insert_match
  enter_match-live index a b (pair_index, (created, db)) h =
      let made = create_tournament_match (match_row tournament round index a b) db in
      let first = row_of tournament ids (knockout_request round index made.0 a b pair_index 1) in
      let second =
        row_of tournament ids (knockout_request round index made.0 a b (pair_index + 1) 2) in
      let (runs, two_is) = create_game-inserts second (create_game first made.1).1 h in
      let (runs', one_is) = create_game-inserts first made.1 runs in
      let (_, made_is) =
        create_tournament_match-inserts (match_row tournament round index a b) db runs' in
      let one =
        game_of_row db.next_game_id (
          row_of tournament ids (knockout_request round index db.next_match_id a b pair_index 1)) in
      let two = game_of_row (suc db.next_game_id) (
        row_of tournament ids
          (knockout_request round index db.next_match_id a b (pair_index + 1) 2)) in
      let games = (db.games ++ (one ∷ [])) ++ (two ∷ []) in
      let test = live_game tournament.id db.next_match_id in
      let found : any test games ≡ true = ground (
        arith,
        any-append test (db.games ++ (one ∷ [])) (two ∷ []),
        any-append test db.games (one ∷ []),
      ) in
      ap (λ r. has_live tournament.id round r.1) two_is
      ∙ ap (λ r. has_live tournament.id round (insert_game second r.1)) one_is
      ∙ ap
          (λ (r : ℕ × Db). has_live tournament.id round (
            insert_game
              (row_of tournament ids (knockout_request round index r.0 a b (pair_index + 1) 2))
              (insert_game
                (row_of tournament ids (knockout_request round index r.0 a b pair_index 1)) r.1)))
          made_is
      ∙ any-append (live_match tournament.id round games) db.matches
          (match_of_row db.next_match_id (match_row tournament round index a b) ∷ [])
      ∙ ground (arith, found)

  pub pairings-live :
      (index a b : ℕ) (ps : List (ℕ × Entrants)) (s : RoundState)
      → (for_each
          ((index, (some a, some b)) ∷ ps)
          (λ p. enter_pairing tournament ids round p.0 p.1)
          s).1.1.is_aborted
        ≡ false
      → has_live tournament.id round
          (for_each
            ((index, (some a, some b)) ∷ ps)
            (λ p. enter_pairing tournament ids round p.0 p.1)
            s).1.1
        ≡ true
  unfolding for_each enter_pairing
  pairings-live index a b ps s h =
      let first = enter_match tournament ids round index a b s in
      let grown = pairings-Grow tournament ids round ps first in
      has_live-Grows tournament.id round first.1.1 _ grown
        (enter_match-live index a b s (grown.runs h))

abbrev unfinished : GameRecord → Bool
unfinished g = not (is_finished g.status)

unfinished-not_ready : (xs : List GameRecord) → any unfinished xs ≡ true → not_ready xs ≡ true
unfinished-not_ready [] h = refl
unfinished-not_ready (x ∷ xs) h = h

-- such a match is not ready
pub live-not_ready :
    (tournament_id match_id : ℕ) (db : Db)
    → any (live_game tournament_id match_id) db.games ≡ true
    → not_ready (games_of_match match_id (list_games tournament_id db)) ≡ true
unfolding games_of_match list_games
live-not_ready tournament_id match_id db h =
    let own = λ (g : GameRecord). opt_is g.match_id match_id in
    let of_tournament = λ (g : GameRecord). g.tournament_id == tournament_id in
    let listed = sort_by game_before (keep of_tournament db.games) in
    unfinished-not_ready (sort_by number_before (keep own listed)) (
      any-sort_by number_before unfinished (keep own listed)
      ∙ any-keep unfinished own listed
      ∙ any-sort_by game_before (λ g. own g && unfinished g) (keep of_tournament db.games)
      ∙ any-keep (λ g. own g && unfinished g) of_tournament db.games
      ∙ h)
