-- ===== src/Scheduler/Knockout/Advance/Ends.antt =====
-- What one turn of the loop of `_advance_knockout` leaves when it goes on.
use cope_chess.Prelude.{
  ℕ, suc, ◌+◌, List, [], ◌∷◌, Option, none, some, Bool, true, false, ◌&&◌, ◌||◌, ◌==◌, ltb, ◌≡◌,
  refl, ap, ◌∙◌, sym, arith, any, any-append, any-none, any-map, enumerate, length, inl, inr,
  Bool-cases, Option-cases, keep, any_ext, map, is_none, max_of-top, max_of-taken, List-cases,
}
use cope_chess.Exec.{for_each}
use cope_chess.Tournament.Records.{TournamentRecord, MatchRecord, knockout_options, is_pending}
use cope_chess.Tournament.Store.{Db, list_games, list_tournament_matches, list_round_matches}
use cope_chess.Tournament.Queries.{any-list_tournament_matches, any-list_round_matches}
use cope_chess.Tournament.Openings.{opening_ids}
use cope_chess.Scheduler.Advance.{current_round}
use cope_chess.Scheduler.Create.{committed}
use cope_chess.Scheduler.Knockout.Bracket.{in_pairs}
use cope_chess.Scheduler.Knockout.Round.{
  Entrants, RoundState, create_knockout_round, knockout_round_with, enter_pairing,
}
use cope_chess.Scheduler.Knockout.Advance.{
  Turn, done, again, Progress, AdvanceResult, after_matches, next_round, continue_with, turn_with,
  knockout_turn, settle_matches,
}
use cope_chess.Scheduler.Knockout.Advance.Rounds.{
  seen, opening_ids-matches, settle_matches-SameRounds,
}
use cope_chess.Scheduler.Knockout.Advance.Created.{Grows, pairings-Grow}
use cope_chess.Scheduler.Knockout.Advance.Live.{has_live, pairings-live}

-- the tournament has no match after a round
abbrev pub later : ℕ → ℕ → ℕ → ℕ → Bool
later tournament_id round t r = t == tournament_id && ltb round r

abbrev in_round : ℕ → ℕ → ℕ → ℕ → Bool
in_round tournament_id round t r = t == tournament_id && r == round

-- the loop ends here, or goes on with a last round that has an unfinished match
pub data Ends (tournament_id : ℕ) : Turn → Type 0 where
  ended : (r : AdvanceResult) → Ends tournament_id (done r)
  goes_on :
      (total : ℕ) (db : Db) (round : ℕ)
      → has_live tournament_id round db ≡ true
      → seen (later tournament_id round) db ≡ false
      → Ends tournament_id (again total db)

abbrev OnlyMatches : Entrants → Type 0
OnlyMatches p = (a : ℕ) × (b : ℕ) × (p ≡ (some a, some b))

first_pair :
    (winners : List (Option ℕ)) (ps : List Entrants)
    → any is_none winners ≡ false
    → any (λ w. true) winners ≡ true
    → in_pairs winners ≡ some ps
    → (a : ℕ) × (b : ℕ) × (rest : List Entrants) × (ps ≡ (some a, some b) ∷ rest)
unfolding in_pairs
first_pair [] ps won has e = absurd (ground arith)
first_pair (w ∷ []) ps won has e = cc
first_pair (none ∷ v ∷ rest) ps won has e = cc
first_pair (some a ∷ none ∷ rest) ps won has e = cc
first_pair (some a ∷ some b ∷ rest) ps won has e = elim (Option-cases (in_pairs rest)) [
  | inl f ↦ let q : in_pairs (some a ∷ some b ∷ rest) ≡ none = rw f refl in cc
  | inr s ↦
      let q : in_pairs (some a ∷ some b ∷ rest) ≡ some ((some a, some b) ∷ s.0) = rw s.1 refl in
      (a, b, s.0, cc)
]

later-Grows :
    (tournament_id round : ℕ) (before after : Db)
    → Grows (round + 1) before after
    → seen (later tournament_id round) before ≡ false
    → seen (later tournament_id (round + 1)) after ≡ false
later-Grows tournament_id round before after g h =
    let test = λ (m : MatchRecord). later tournament_id (round + 1) m.tournament_id m.round in
    ap (any test) g.matches_are
    ∙ any-append test before.matches g.new_matches
    ∙ ground (
      arith,
      any-none test (λ m. later tournament_id round m.tournament_id m.round) before.matches
          (λ m e. ground arith) h,
      any-none test (λ m. ltb (round + 1) m.round) g.new_matches (λ m e. ground arith) g.no_later,
    )

round-Ends :
    (tournament : TournamentRecord) (round total a b : ℕ) (rest : List Entrants) (db : Db)
    → tournament.config.format_options ≡ knockout_options
    → seen (later tournament.id round) db ≡ false
    → Ends tournament.id (next_round tournament round total (some ((some a, some b) ∷ rest)) db)
unfolding next_round committed
round-Ends tournament round total a b rest db e bounded =
    let opened = opening_ids tournament (suc (length rest)) db in
    let ids = opened.0 in
    let pairings = enumerate 2 rest in
    let play = λ (p : ℕ × Entrants). enter_pairing tournament ids (round + 1) p.0 p.1 in
    let start : RoundState = (1, (0, opened.1)) in
    let grown = pairings-Grow tournament ids (round + 1) ((1, (some a, some b)) ∷ pairings) start in
    let played = for_each ((1, (some a, some b)) ∷ pairings) play start in
    let after = played.1.1 in
    let bounded' : seen (later tournament.id (round + 1)) after ≡ false =
      later-Grows tournament.id round opened.1 after grown
        (ap (any _) (opening_ids-matches tournament (suc (length rest)) db) ∙ bounded) in
    let made : create_knockout_round tournament (round + 1) ((some a, some b) ∷ rest) db
        ≡ committed db played.1 =
      unfold create_knockout_round knockout_round_with in
      ap (λ o. knockout_round_with tournament o (round + 1) ((some a, some b) ∷ rest) db) e in
    elim (Bool-cases after.is_aborted) [
      | inl f ↦ rw (next_round, made, committed, f, continue_with) (ended _)
      | inr f ↦
          rw (next_round, made, committed, f, continue_with)
            (goes_on (total + played.1.0) after (round + 1)
              (pairings-live tournament ids (round + 1) 1 a b pairings start f) bounded')
    ]

-- a turn that is not the first of the tournament
after-Ends :
    (tournament : TournamentRecord) (round : ℕ) (p : Progress)
    → tournament.config.format_options ≡ knockout_options
    → seen (later tournament.id round) p.db ≡ false
    → seen (in_round tournament.id round) p.db ≡ true
    → Ends tournament.id (after_matches tournament round p)
unfolding after_matches
after-Ends tournament round p e bounded there =
    let round_matches = list_round_matches tournament.id round p.db in
    let winners = map (λ (m : MatchRecord). m.winner_engine_id) round_matches in
    let has : any (λ w. true) winners ≡ true =
      any-map (λ w. true) (λ (m : MatchRecord). m.winner_engine_id) round_matches
      ∙ any-list_round_matches (λ m. true) tournament.id round p.db
      ∙ any_ext _ _ p.db.matches (λ m. ground arith)
      ∙ there in
    elim (Bool-cases (p.waiting || any (λ (m : MatchRecord). is_pending m.status) round_matches)) [
      | inl f ↦ rw f (ended _)
      | inr f ↦ elim (Bool-cases (length round_matches == 1)) [
        | inl g ↦ rw (f, g) (ended _)
        | inr g ↦ elim (Bool-cases (any is_none winners)) [
          | inl k ↦ rw (f, g, k) (ended _)
          | inr k ↦ elim (Option-cases (in_pairs winners)) [
            | inl o ↦ rw (f, g, k, o) (unfold next_round in ended _)
            | inr s ↦
                let (a, b, rest, q) = first_pair winners s.0 k has s.1 in
                rw (f, g, k, s.1, q)
                  (round-Ends tournament round p.total_created a b rest p.db e bounded)
          ]
        ]
      ]
    ]

-- what `max(match.round for match in matches)` is of a tournament that has matches
pub current_round-later :
    (tournament_id : ℕ) (db : Db)
    → seen (later tournament_id (current_round (list_tournament_matches tournament_id db))) db
      ≡ false
current_round-later tournament_id db =
    let listed = list_tournament_matches tournament_id db in
    let round = current_round listed in
    sym (any-list_tournament_matches (λ (m : MatchRecord). ltb round m.round) tournament_id db)
    ∙ max_of-top (λ (m : MatchRecord). m.round) round listed (omega arith)

current_round-in :
    (tournament_id : ℕ) (db : Db) (m : MatchRecord) (ms : List MatchRecord)
    → list_tournament_matches tournament_id db ≡ m ∷ ms
    → seen (in_round tournament_id (current_round (m ∷ ms))) db ≡ true
current_round-in tournament_id db m ms e =
    let round = current_round (m ∷ ms) in
    let test = λ (x : MatchRecord). x.round == round in
    sym (any-list_tournament_matches test tournament_id db)
    ∙ ap (any test) e
    ∙ max_of-taken (λ (x : MatchRecord). x.round) m ms

pub knockout_turn-Ends :
    (tournament : TournamentRecord) (total : ℕ) (db : Db)
    → tournament.config.format_options ≡ knockout_options
    → Ends tournament.id (knockout_turn tournament total db)
unfolding knockout_turn
knockout_turn-Ends tournament total db e =
    elim (List-cases (list_tournament_matches tournament.id db)) [
      | inl nil ↦ rw (nil, turn_with) (ended _)
      | inr (m, ms, cons) ↦
          let round = current_round (m ∷ ms) in
          let start : Progress = record { waiting = false; total_created = total; db = db } in
          let ready = keep (λ (x : MatchRecord). x.round == round) (m ∷ ms) in
          let games = list_games tournament.id db in
          let settled = settle_matches tournament games ready start in
          let same = settle_matches-SameRounds tournament games ready start in
          elim (Bool-cases settled.db.is_aborted) [
            | inl f ↦ rw (cons, turn_with, f) (ended _)
            | inr f ↦
                rw (cons, turn_with, f)
                  (after-Ends tournament round settled e
                    (same (later tournament.id round)
                      ∙ ap (λ l. seen (later tournament.id (current_round l)) db) (sym cons)
                      ∙ current_round-later tournament.id db)
                    (same (in_round tournament.id round)
                      ∙ current_round-in tournament.id db m ms cons))
          ]
    ]
