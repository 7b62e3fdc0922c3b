-- ===== src/Assignments/Safe/Returning.antt =====
-- Giving games back in cope/db/repo.py, and the invariant of games and assignments: unstarted
-- games of a paused tournament, those of a worker that leaves, of a tournament that is resumed,
-- aborted or restored, and games that are replayed.
use cope_chess.Prelude.{
  ℕ, List, [], ◌∷◌, some, Bool, true, false, not, ◌&&◌, ◌==◌, ==_iff, if◌then◌else◌, keep, map, any,
  ◌≡◌, inl, inr, refl, Bool-cases, Option-cases, All, All-all, All-map, any_mono, any_self,
  All-both, first, first-any, unique-only, sym, ap, ◌∙◌, arith, Unique, length,
}
use cope_chess.Tournament.Records.{
  GameRecord, GameStatus, TournamentStatus, TournamentRecord, is_finished,
}
use cope_chess.Tournament.Status.{is_aborted, update_status, abandon_tournament_games, abandon_game}
use cope_chess.Assignments.Records.{
  AssignmentRecord, Pool, CheckpointRecord, is_active, is_unstarted, is_assigned, update_games,
  update_assignments, update_where, row_count, with_game_status, get_game_assignment,
}
use cope_chess.Assignments.Progress.{held_by}
use cope_chess.Assignments.Pause.{
  expired, pause_unstarted_found, pause_unstarted_game_assignment, resumes,
  resume_paused_tournament_games,
}
use cope_chess.Assignments.Abort.{
  unfinished_game_of, given_up_for, abandon_games, set_tournament_status,
}
use cope_chess.Assignments.Safe.{
  Safe, IsSafe, apart, is_open, Safe-assignments, Safe-games, Safe-update,
}

-- a count of one row finds a row
row_count-any :
    (q : AssignmentRecord → Bool) (xs : List AssignmentRecord)
    → (row_count q xs == 1) ≡ true
    → any q xs ≡ true
unfolding row_count
row_count-any q [] h = absurd (ground arith)
row_count-any q (x ∷ xs) h = elim (Bool-cases (q x)) [
  | inl e ↦ ground (arith, e)
  | inr e ↦
      let fewer : (row_count q xs == 1) ≡ true =
        ap (λ c. length (if c then x ∷ keep q xs else keep q xs) == 1) (sym e) ∙ h in
      let rest = row_count-any q xs fewer in ground (arith, rest)
]

-- the rows of the game of an assignment that was expired before its start
unstarted_only :
    (i k : ℕ) (a : AssignmentRecord) (now : ℕ) (xs : List AssignmentRecord)
    → Unique (map (λ b. b.game_id) xs)
    → Unique (map (λ b. b.id) xs)
    → first (λ b. b.id == i) xs ≡ some a
    → (row_count (held_by is_unstarted i k) xs == 1) ≡ true
    → All
        (λ b. (b.game_id == a.game_id) ≡ true → is_active b.status ≡ false)
        (update_where (held_by is_unstarted i k) (expired now) xs)
unfolding update_where expired
unstarted_only i k a now xs games ids found counted =
    All-map _ _ _ xs (λ b h. gone b h.0 h.1) (All-both _ _ xs same_row unstarted)
  where
    same_row : All (λ b. (b.game_id == a.game_id) ≡ true → (b.id == i) ≡ true) xs
    same_row =
        unique-only (λ b. b.game_id) (λ b. b.id == i) a.game_id xs games
          (first-any (λ b. b.id == i) (λ b. b.game_id == a.game_id) a xs found (ground arith))

    unstarted :
        All (λ b. (b.id == i) ≡ true → (b.assignment_key == k && is_unstarted b.status) ≡ true) xs
    unstarted =
        unique-only (λ b. b.id) (λ b. b.assignment_key == k && is_unstarted b.status) i xs ids
          (any_mono (held_by is_unstarted i k) _ xs (λ b t. ground (arith, t))
            (row_count-any (held_by is_unstarted i k) xs counted))

    gone :
        (b : AssignmentRecord)
        → ((b.game_id == a.game_id) ≡ true → (b.id == i) ≡ true)
        → ((b.id == i) ≡ true → (b.assignment_key == k && is_unstarted b.status) ≡ true)
        → ((if held_by is_unstarted i k b then expired now b else b).game_id == a.game_id) ≡ true
        → is_active (if held_by is_unstarted i k b then expired now b else b).status ≡ false
    gone b row held = elim (Bool-cases (held_by is_unstarted i k b)) [
      | inl h ↦ rw h (λ _. refl)
      | inr h ↦
          rw h (λ e. let id = row e in let rest = held id in absurd (ground (arith, h, id, rest)))
    ]

pub pause_unstarted_game_assignment-IsSafe :
    (assignment_id assignment_key : ℕ) (p : Pool)
    → IsSafe p
    → IsSafe (pause_unstarted_game_assignment assignment_id assignment_key p)
unfolding pause_unstarted_game_assignment pause_unstarted_found update_assignments
    get_game_assignment update_games with_game_status expired
pause_unstarted_game_assignment-IsSafe i k p s =
    elim (Option-cases (first (λ a. a.id == i) p.assignments)) [
      | inl e ↦ rw e s
      | inr (a, e) ↦ rw e (elim (Bool-cases (a.assignment_key == k)) [
        | inl c ↦ rw c (elim (Bool-cases (row_count held p.assignments == 1)) [
          | inl n ↦ rw n (
              Safe-games _ (λ g. g.id == a.game_id && is_assigned g.status)
                (with_game_status GameStatus.pending) (λ g. refl) (quiet a)
                (update_where held (expired p.db.clock) p.assignments) p.db.games
                p.next_assignment_id
                (unstarted_only i k a p.db.clock p.assignments s.one_each s.ids e n) paused)
          | inr n ↦ rw n paused
        ])
        | inr c ↦ rw c s
      ])
    ]
  where
    held : AssignmentRecord → Bool
    held = held_by is_unstarted i k

    paused :
        Safe (update_where held (expired p.db.clock) p.assignments) p.db.games p.next_assignment_id
    paused =
        Safe-assignments held (expired p.db.clock) (λ a. refl) (λ a. refl)
          (λ a h o. absurd (ground (arith, o))) p.assignments p.db.games p.next_assignment_id s

    quiet :
        (a b : AssignmentRecord) (g : GameRecord)
        → ((b.game_id == a.game_id) ≡ true → is_active b.status ≡ false)
        → (g.id == a.game_id && is_assigned g.status) ≡ true
        → is_open (with_game_status GameStatus.pending g).status ≡ true
        → (is_active b.status && b.game_id == g.id) ≡ false
    quiet a b g free h o = elim (Bool-cases (b.game_id == g.id)) [
      | inl e ↦ let off = free (ground (arith, e, h)) in ground (arith, off)
      | inr e ↦ ground (arith, e)
    ]

-- no active assignment is for a game with a checkpoint
abbrev pub Settled : List CheckpointRecord → AssignmentRecord → Type 0
Settled checkpoints a =
    any (λ (c : CheckpointRecord). c.game_id == a.game_id) checkpoints ≡ true
    → is_active a.status ≡ false

pub resume_paused_tournament_games-IsSafe :
    (tournament_id : ℕ) (p : Pool)
    → All (Settled p.checkpoints) p.assignments
    → IsSafe p
    → IsSafe (resume_paused_tournament_games tournament_id p).1
unfolding resume_paused_tournament_games update_games with_game_status
resume_paused_tournament_games-IsSafe tournament_id p settled s =
    Safe-games (Settled p.checkpoints) _ (with_game_status GameStatus.pending) (λ g. refl) quiet
      p.assignments p.db.games p.next_assignment_id settled s
  where
    quiet :
        (a : AssignmentRecord) (g : GameRecord)
        → Settled p.checkpoints a
        → resumes tournament_id p.checkpoints g ≡ true
        → is_open (with_game_status GameStatus.pending g).status ≡ true
        → (is_active a.status && a.game_id == g.id) ≡ false
    quiet a g free h o = elim (Bool-cases (a.game_id == g.id)) [
      | inl e ↦
          let off = free (
            ap (λ v. any (λ (c : CheckpointRecord). c.game_id == v) p.checkpoints)
              ((==_iff a.game_id g.id).0 e)
            ∙ ground (arith, h)) in
          ground (arith, off)
      | inr e ↦ ground (arith, e)
    ]

-- aborting: the assignments of the games that are abandoned are given up
abandon_games-IsSafe :
    (tournament_id : ℕ) (p : Pool) → IsSafe p → IsSafe (abandon_games tournament_id p)
unfolding abandon_games abandon_tournament_games abandon_game update_assignments update_where
    given_up_for unfinished_game_of
abandon_games-IsSafe tournament_id p s =
    Safe-update (λ _. Unit {0}) Found _ (given_up_for p.db.clock "tournament aborted") abandoned
      (λ g. record g { status = GameStatus.abandoned }) (λ a. refl) (λ a. refl) (λ g. refl)
      p.assignments p.db.games p.next_assignment_id step (All-all _ p.assignments (λ a. tt))
      (any_self (unfinished_game_of tournament_id) p.db.games) s
  where
    abandoned : GameRecord → Bool
    abandoned g = g.tournament_id == tournament_id && not (is_finished g.status)

    Found : GameRecord → Type 0
    Found g =
        (a : AssignmentRecord)
        → unfinished_game_of tournament_id a g ≡ true
        → any (unfinished_game_of tournament_id a) p.db.games ≡ true

    gives_up : AssignmentRecord → Bool
    gives_up a = is_active a.status && any (unfinished_game_of tournament_id a) p.db.games

    step :
        (a : AssignmentRecord) (g : GameRecord)
        → Unit {0}
        → Found g
        → apart a g ≡ true
        → apart
            (if gives_up a then given_up_for p.db.clock "tournament aborted" a else a)
            (if abandoned g then record g { status = GameStatus.abandoned } else g)
          ≡ true
    step a g _ found h = elim (Bool-cases (gives_up a)) [
      | inl e ↦ rw e refl
      | inr e ↦ rw e (elim (Bool-cases (abandoned g)) [
        | inl b ↦ rw b (elim (Bool-cases (a.game_id == g.id)) [
          | inl i ↦ let there = found a (ground (arith, b, i)) in ground (arith, e, there)
          | inr i ↦ ground (arith, i)
        ])
        | inr b ↦ rw b h
      ])
    ]

module _ (reconcile : ℕ → Pool → Pool)
    (keeps : (tournament_id : ℕ) (p : Pool) → IsSafe p → IsSafe (reconcile tournament_id p)) where
  pub set_tournament_status-IsSafe :
      (tournament_id : ℕ) (status : TournamentStatus) (p : Pool)
      → IsSafe p
      → IsSafe (set_tournament_status reconcile tournament_id status p)
  unfolding set_tournament_status update_status
  set_tournament_status-IsSafe tournament_id status p s =
      elim (Bool-cases (any (λ (t : TournamentRecord). t.id == tournament_id) p.db.tournaments)) [
        | inl e ↦ rw e (
            keeps tournament_id _ (elim (Bool-cases (is_aborted status)) [
              | inl a ↦ rw a (
                  abandon_games-IsSafe tournament_id
                    (record p { db = update_status tournament_id status p.db }) s)
              | inr a ↦ rw a s
            ]))
        | inr e ↦ rw e s
      ]
