-- ===== src/Assignments/Safe/Replaying.antt =====
-- `replay_game` and `restore_tournament` of cope/db/repo.py, and the invariant of games and
-- assignments.
use cope_chess.Prelude.{
  ℕ, [], ◌∷◌, some, Bool, true, false, not, ◌&&◌, ◌||◌, ◌==◌, keep, map, any, is_none, ◌≡◌, inl,
  inr, refl, Bool-cases, Option-cases, All, All-imp, All-any, first, first-passes, elem-map-keep,
  arith,
}
use cope_chess.Tournament.Records.{GameRecord, GameStatus, TournamentRecord, is_finished}
use cope_chess.Tournament.Status.{is_aborted}
use cope_chess.Assignments.Records.{AssignmentRecord, Pool, RatingCommit, is_active, update_games}
use cope_chess.Assignments.Reset.{reset_game}
use cope_chess.Assignments.Invalidate.{
  are_committed, delete_system_chat_events, of_tournament, is_abandoned,
}
use cope_chess.Assignments.Replay.{
  replayed_game, reopens, reopen_tournament, replay_found, replay_game, restored, restore_found,
  restore_tournament, is_committing,
}
use cope_chess.Assignments.Safe.{IsSafe, apart, is_open, Safe-games}
use cope_chess.Assignments.Safe.Resetting.{Released, reset_games_for_replay-IsSafe}

opened : (s : GameStatus) → is_abandoned s ≡ true → is_open s ≡ true
opened GameStatus.abandoned h = refl
opened GameStatus.pending h = refl
opened GameStatus.assigned h = h
opened GameStatus.live h = h
opened GameStatus.finished h = h

replayed_game-IsSafe :
    (tournament_id game_id : ℕ) (p : Pool)
    → All (Released (game_id ∷ [])) p.assignments
    → IsSafe p
    → IsSafe (replayed_game tournament_id game_id p)
unfolding replayed_game update_games reset_game delete_system_chat_events
replayed_game-IsSafe tournament_id game_id p released s =
    Safe-games (Released (game_id ∷ [])) _ reset_game (λ g. refl) quiet p.assignments p.db.games
      p.next_assignment_id released s
  where
    quiet :
        (a : AssignmentRecord) (g : GameRecord)
        → Released (game_id ∷ []) a
        → (g.id == game_id) ≡ true
        → is_open (reset_game g).status ≡ true
        → (is_active a.status && a.game_id == g.id) ≡ false
    quiet a g free h o = elim (Bool-cases (a.game_id == g.id)) [
      | inl e ↦ let off = free (ground (arith, e, h)) in ground (arith, off)
      | inr e ↦ ground (arith, e)
    ]

-- Games that were abandoned have no active assignment.
abandoned-Released :
    (tournament_id : ℕ) (p : Pool)
    → IsSafe p
    → All
        (Released (
          map
            (λ g. g.id)
            (keep (λ g. g.tournament_id == tournament_id && is_abandoned g.status) p.db.games)))
        p.assignments
abandoned-Released tournament_id p s = All-imp _ _ p.assignments free s.apart
  where
    abandoned : GameRecord → Bool
    abandoned g = g.tournament_id == tournament_id && is_abandoned g.status

    off :
        (a : AssignmentRecord) (g : GameRecord)
        → apart a g ≡ true
        → (g.id == a.game_id && abandoned g) ≡ true
        → is_active a.status ≡ false
    off a g h t =
        let open_game = opened g.status (ground (arith, t)) in ground (arith, h, t, open_game)

    free :
        (a : AssignmentRecord)
        → All (λ g. apart a g ≡ true) p.db.games
        → Released (map (λ g. g.id) (keep abandoned p.db.games)) a
    free a h e =
        All-any (λ g. apart a g ≡ true) (λ g. (g.id == a.game_id) && abandoned g) _ p.db.games h
          (elem-map-keep (λ g. g.id) abandoned a.game_id p.db.games e) (off a)

restored-IsSafe : (tournament_id : ℕ) (p : Pool) → IsSafe p → IsSafe (restored tournament_id p)
unfolding restored
restored-IsSafe tournament_id p s =
    reset_games_for_replay-IsSafe true _ "tournament restored after abort" p
      (abandoned-Released tournament_id p s) s

module _ (reconcile : ℕ → Pool → Pool)
    (keeps : (tournament_id : ℕ) (p : Pool) → IsSafe p → IsSafe (reconcile tournament_id p)) where
  pub replay_game-IsSafe :
      (tournament_id game_id : ℕ) (p : Pool)
      → All (Released (game_id ∷ [])) p.assignments
      → IsSafe p
      → IsSafe (replay_game reconcile tournament_id game_id p).1
  unfolding replay_game replay_found reopen_tournament
  replay_game-IsSafe tournament_id game_id p released s =
      elim (Option-cases (first (of_tournament tournament_id game_id) p.db.games)) [
        | inl e ↦ rw e s
        | inr (g, e) ↦ rw e (elim (Bool-cases (not (is_finished g.status) || is_none g.result)) [
          | inl h ↦ rw h s
          | inr h ↦ rw h (elim (Bool-cases (are_committed (g.id ∷ []) p)) [
            | inl c ↦ rw c s
            | inr c ↦
                rw c
                  (elim (Bool-cases (
                    any (reopens tournament_id)
                      (replayed_game tournament_id g.id p).db.tournaments)) [
                        | inl o ↦ rw o (
                            keeps tournament_id
                              (reopen_tournament tournament_id (replayed_game tournament_id g.id p))
                              (replayed g e))
                        | inr o ↦ rw o (replayed g e)
                      ])
          ])
        ])
      ]
    where
      replayed :
          (g : GameRecord)
          → first (of_tournament tournament_id game_id) p.db.games ≡ some g
          → IsSafe (replayed_game tournament_id g.id p)
      replayed g e =
          let test = first-passes (of_tournament tournament_id game_id) g p.db.games e in
          replayed_game-IsSafe tournament_id g.id p
            (All-imp _ _ p.assignments (λ a free i. free (ground (arith, i, test))) released) s

  pub restore_tournament-IsSafe :
      (tournament_id : ℕ) (p : Pool)
      → IsSafe p
      → IsSafe (restore_tournament reconcile tournament_id p).1
  unfolding restore_tournament restore_found
  restore_tournament-IsSafe tournament_id p s =
      elim (Option-cases
        (first (λ (t : TournamentRecord). t.id == tournament_id) p.db.tournaments)) [
          | inl e ↦ rw e s
          | inr (t, e) ↦ rw e (elim (Bool-cases (not (is_aborted t.status))) [
            | inl h ↦ rw h s
            | inr h ↦
                rw h
                  (elim (Bool-cases (
                    any
                      (λ (c : RatingCommit).
                        c.tournament_id == tournament_id && is_committing c.status)
                      p.rating_commits)) [
                        | inl c ↦ rw c s
                        | inr c ↦ rw c (keeps tournament_id _ (restored-IsSafe tournament_id p s))
                      ])
          ])
        ]
