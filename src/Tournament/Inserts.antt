-- ===== src/Tournament/Inserts.antt =====
-- Rows that `create_game` and `create_tournament_match` of cope/db/repo.py insert.
use cope_chess.Prelude.{false, ◌||◌, any, ◌≡◌, refl, inl, inr, Bool-cases, arith, true}
use cope_chess.Tournament.Store.{
  Db, GameRow, MatchRow, create_game, takes_game, insert_game, create_tournament_match, takes_match,
  insert_match,
}

-- A transaction that is not aborted afterwards was not aborted before, and has the row.
pub create_game-inserts :
    (r : GameRow) (db : Db)
    → (create_game r db).1.is_aborted ≡ false
    → (db.is_aborted ≡ false) × (create_game r db ≡ (db.next_game_id, insert_game r db))
unfolding create_game
create_game-inserts r db h = elim (Bool-cases (db.is_aborted || any (takes_game r) db.games)) [
  | inl e ↦ let raised : (create_game r db).1.is_aborted ≡ true = rw e refl in absurd cc
  | inr e ↦ (ground (arith, e), rw e refl)
]

pub create_tournament_match-inserts :
    (r : MatchRow) (db : Db)
    → (create_tournament_match r db).1.is_aborted ≡ false
    → (db.is_aborted ≡ false)
      × (create_tournament_match r db ≡ (db.next_match_id, insert_match r db))
unfolding create_tournament_match
create_tournament_match-inserts r db h =
    elim (Bool-cases (db.is_aborted || any (takes_match r) db.matches)) [
      | inl e ↦
          let raised : (create_tournament_match r db).1.is_aborted ≡ true = rw e refl in absurd cc
      | inr e ↦ (ground (arith, e), rw e refl)
    ]
