-- ===== src/Scheduler/Create/Batch.antt =====
-- What a batch of `_create_scheduled_game` calls leaves in the database.
use cope_chess.Prelude.{
  ℕ, suc, ◌+◌, List, [], ◌∷◌, ◌++◌, false, refl, sym, inl, inr, Bool-cases, ap, ◌∙◌, ◌≡◌, arith,
  map, length, append-nil, append_assoc,
}
use cope_chess.Tournament.Records.{TournamentRecord, GameRecord}
use cope_chess.Tournament.Store.{Db, GameRow, game_of_row, create_game, insert_game}
use cope_chess.Tournament.Inserts.{create_game-inserts}
use cope_chess.Scheduler.Create.{
  GameRequest, row_of, schedule, schedule_all, create_scheduled_game, Tally, committed,
}
use cope_chess.Scheduler.Errors.{constraint_violated}
use cope_chess.Exec.{ok, err}

-- rows with consecutive ids
unfoldable pub numbered : ℕ → List GameRow → List GameRecord
unfolding game_of_row
numbered id [] = []
numbered id (r ∷ rs) = game_of_row id r ∷ numbered (suc id) rs

unfoldable pub with_games : TournamentRecord → List ℕ → List GameRequest → Db → Db
with_games tournament ids requests db = record db {
  games = db.games ++ numbered db.next_game_id (map (row_of tournament ids) requests);
  next_game_id = db.next_game_id + length requests;
}

module _ (tournament : TournamentRecord) (ids : List ℕ) where
  with_games-cons :
      (r : GameRequest) (rs : List GameRequest) (db : Db)
      → with_games tournament ids rs (insert_game (row_of tournament ids r) db)
        ≡ with_games tournament ids (r ∷ rs) db
  unfolding with_games insert_game numbered
  with_games-cons r rs db = ground (
    arith,
    append_assoc db.games (game_of_row db.next_game_id (row_of tournament ids r) ∷ [])
        (numbered (suc db.next_game_id) (map (row_of tournament ids) rs)),
  )

  pub schedule_all-eq :
      (rs : List GameRequest) (n : ℕ) (db : Db)
      → (schedule_all tournament ids rs (n, db)).1.is_aborted ≡ false
      → (db.is_aborted ≡ false)
        × (schedule_all tournament ids rs (n, db)
            ≡ (n + length rs, with_games tournament ids rs db))
  unfolding schedule_all schedule create_scheduled_game with_games numbered
  schedule_all-eq [] n db h = (h, ground (arith, append-nil db.games))
  schedule_all-eq (r ∷ rs) n db h =
      let made = create_game (row_of tournament ids r) db in
      let (runs, rest) = schedule_all-eq rs (n + 1) made.1 h in
      let (runs', is) = create_game-inserts (row_of tournament ids r) db runs in
      let count : n + 1 + length rs ≡ n + length (r ∷ rs) = omega arith in
      (
        runs',
        rest
            ∙ ap (λ (q : ℕ × Db). (n + 1 + length rs, with_games tournament ids rs q.1)) is
            ∙ ap (λ d. (n + 1 + length rs, d)) (with_games-cons r rs db)
            ∙ ap (λ k. (k, with_games tournament ids (r ∷ rs) db)) count,
      )

-- Games that are reported as created are in the database.
pub committed-ok :
    (before : Db) (t : Tally) (n : ℕ)
    → (committed before t).0 ≡ ok n
    → (t.1.is_aborted ≡ false) × (committed before t ≡ (ok t.0, t.1))
unfolding committed
committed-ok before (created, after) n h = elim (Bool-cases after.is_aborted) [
  | inl e ↦
      let raised : committed before (created, after) ≡ (err constraint_violated, before) =
        rw e refl in
      let clash = sym (ap (λ q. q.0) raised) ∙ h in absurd cc
  | inr e ↦ (e, rw e refl)
]
