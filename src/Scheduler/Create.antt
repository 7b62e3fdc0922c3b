-- ===== src/Scheduler/Create.antt =====
-- `_create_scheduled_game` of cope/runner/scheduler.py, and the loops that call it.
pub mod Batch
pub mod Counts
use cope_chess.Prelude.{
  ℕ, suc, ◌+◌, ◌%◌, List, [], ◌∷◌, ◌++◌, Option, none, some, get_elem?, length, if◌then◌else◌, ◌≡◌,
  refl, flat_map,
}
use cope_chess.Exec.{Result, ok, err, for_each, for_each-flat_map}
use cope_chess.Tournament.Records.{TiebreakKind, TournamentRecord}
use cope_chess.Tournament.Store.{Db, GameRow, create_game}
use cope_chess.Tournament.Openings.{opening_ids}
use cope_chess.Scheduler.Errors.{ScheduleError, constraint_violated}

-- the keyword arguments of `_create_scheduled_game`
pub record GameRequest : Type 0 where
  pub round_number : ℕ
  pub pair_index : ℕ
  pub white_engine_id : ℕ
  pub black_engine_id : ℕ
  pub match_id : Option ℕ
  pub game_number : ℕ
  pub tiebreak_kind : Option TiebreakKind
  pub opening_offset : Option ℕ

abbrev offset_or_zero : Option ℕ → ℕ
offset_or_zero none = 0
offset_or_zero (some n) = n

-- `opening_ids[opening_offset % len(opening_ids)] if opening_ids else None`
unfoldable pub pick_opening : List ℕ → ℕ → Option ℕ
pick_opening [] offset = none
pick_opening (x ∷ xs) offset = get_elem? (x ∷ xs) (offset % length (x ∷ xs))

openings_for : TournamentRecord → ℕ → Option (List ℕ) → Db → List ℕ × Db
openings_for tournament offset none db = opening_ids tournament (offset + 1) db
openings_for tournament offset (some ids) db = (ids, db)

unfoldable pub row_of : TournamentRecord → List ℕ → GameRequest → GameRow
row_of tournament ids r = record {
  tournament_id = tournament.id;
  round = r.round_number;
  pair_index = r.pair_index;
  white_engine_id = r.white_engine_id;
  black_engine_id = r.black_engine_id;
  match_id = r.match_id;
  game_number = r.game_number;
  tiebreak_kind = r.tiebreak_kind;
  opening_id = pick_opening ids (offset_or_zero r.opening_offset);
}

unfoldable pub create_scheduled_game :
    TournamentRecord → Option (List ℕ) → GameRequest → Db → ℕ × Db
unfolding openings_for row_of
create_scheduled_game tournament given r db =
    let (ids, db') = openings_for tournament (offset_or_zero r.opening_offset) given db in
    create_game (row_of tournament ids r) db'

-- What the loops carry: `created_games` and the database.
abbrev pub Tally : Type 0
Tally = ℕ × Db

-- `_create_scheduled_game(…, opening_ids=opening_ids)` and `created_games += 1`
unfoldable pub schedule : TournamentRecord → List ℕ → GameRequest → Tally → Tally
schedule tournament ids r (created, db) =
    (created + 1, (create_scheduled_game tournament (some ids) r db).1)

-- What a function that has created games returns: a broken constraint raises, and the database is as
-- before.
unfoldable pub committed : Db → Tally → Result ScheduleError ℕ × Db
committed before (created, after) =
    if after.is_aborted then (err constraint_violated, before) else (ok created, after)

unfoldable pub schedule_all : TournamentRecord → List ℕ → List GameRequest → Tally → Tally
schedule_all tournament ids [] t = t
schedule_all tournament ids (r ∷ rs) t =
    schedule_all tournament ids rs (schedule tournament ids r t)

module _ (tournament : TournamentRecord) (ids : List ℕ) where
  pub schedule_all-append :
      (u v : List GameRequest) (t : Tally)
      → schedule_all tournament ids (u ++ v) t
        ≡ schedule_all tournament ids v (schedule_all tournament ids u t)
  unfolding schedule_all
  schedule_all-append [] v t = refl
  schedule_all-append (r ∷ u) v t = schedule_all-append u v (schedule tournament ids r t)

  pub schedule_all-nil : (t : Tally) → schedule_all tournament ids [] t ≡ t
  unfolding schedule_all
  schedule_all-nil t = refl

  -- a loop whose rounds each schedule a list schedules all of these
  pub each_schedules {ℓ} :
      {A : Type ℓ} (body : A → Tally → Tally) (requests : A → List GameRequest)
      → ((x : A) (t : Tally) → body x t ≡ schedule_all tournament ids (requests x) t)
      → (xs : List A) (t : Tally)
      → for_each xs body t ≡ schedule_all tournament ids (flat_map requests xs) t
  each_schedules body requests each xs t =
      for_each-flat_map (schedule_all tournament ids) schedule_all-append schedule_all-nil body
        requests each xs t
