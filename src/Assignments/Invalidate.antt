-- ===== src/Assignments/Invalidate.antt =====
-- `invalidate_game_pair` and `invalidate_tournament_participant_games` of cope/db/repo.py. Deleting a
-- game deletes its rows in the tables that refer to it, and deleting a chat message the event
-- that it announces.
use cope_chess.Prelude.{
  ℕ, ◌+◌, ◌%◌, List, [], ◌∷◌, ◌++◌, Option, none, some, Bool, true, false, not, ◌&&◌, ◌||◌, ◌==◌,
  if◌then◌else◌, keep, any, map, elem, first, is_none, opt_is, sort_by, ltb,
}
use cope_chess.Exec.{Result, ok, err}
use cope_chess.Tournament.Records.{GameRecord, GameStatus, is_finished}
use cope_chess.Assignments.Records.{
  Pool, EventKey, game_finished_event, tournament_finished_event, other_event, ChatEvent,
  is_pending, is_live, is_assigned, row_count,
}

-- the texts of the ValueErrors
pub data ReplayError : Type 0 where
  not_of_this_tournament only_completed_games already_rated : ReplayError
  no_such_tournament only_aborted uncommit_first : ReplayError

abbrev pub is_empty {ℓ} : {A : Type ℓ} → List A → Bool
is_empty [] = true
is_empty (x ∷ xs) = false

unfoldable pub are_committed : List ℕ → Pool → Bool
are_committed game_ids p = any (λ id. elem id game_ids) p.rated_game_ids

-- one of the event keys of these games, or that of the tournament's end
unfoldable pub announces : List ℕ → EventKey → Bool
announces game_ids (game_finished_event game_id) = elem game_id game_ids
announces game_ids tournament_finished_event = true
announces game_ids (other_event key) = false

unfoldable pub announcements : ℕ → List ℕ → List ChatEvent → List ℕ
unfolding announces
announcements tournament_id game_ids events =
    map (λ e. e.message_id)
      (keep (λ e. e.tournament_id == tournament_id && announces game_ids e.event_key) events)

unfoldable pub delete_system_chat_events : ℕ → List ℕ → Pool → Pool
unfolding announcements
delete_system_chat_events tournament_id game_ids p =
    let ids = announcements tournament_id game_ids p.chat_events in
    record p {
      chat_messages = keep (λ id. not (elem id ids)) p.chat_messages;
      chat_events = keep (λ e. not (elem e.message_id ids)) p.chat_events;
    }

-- DELETE FROM games WHERE id IN (…), with ON DELETE CASCADE
unfoldable pub delete_games : List ℕ → Pool → Pool
delete_games ids p = record p {
  db = record p.db { games = keep (λ g. not (elem g.id ids)) p.db.games };
  assignments = keep (λ a. not (elem a.game_id ids)) p.assignments;
  moves = keep (λ m. not (elem m.game_id ids)) p.moves;
  checkpoints = keep (λ c. not (elem c.game_id ids)) p.checkpoints;
  replayed = keep (λ r. not (elem r.game_id ids)) p.replayed;
}

abbrev pub of_tournament : ℕ → ℕ → GameRecord → Bool
of_tournament tournament_id game_id g = g.id == game_id && g.tournament_id == tournament_id

abbrev pub is_abandoned : GameStatus → Bool
is_abandoned GameStatus.abandoned = true
is_abandoned _ = false

-- the game numbers of the pair that `g` is in: 1 and 2, 3 and 4, …
abbrev pub in_pair : GameRecord → GameRecord → Bool
in_pair g h =
    if g.game_number % 2 == 0
    then h.game_number + 1 == g.game_number || h.game_number == g.game_number
    else h.game_number == g.game_number || h.game_number == g.game_number + 1

-- the two engines are those of the other game, in either order
abbrev pub same_engines : GameRecord → GameRecord → Bool
same_engines g h =
    (h.white_engine_id == g.white_engine_id && h.black_engine_id == g.black_engine_id)
    || (h.white_engine_id == g.black_engine_id && h.black_engine_id == g.white_engine_id)

unfoldable pub same_match : GameRecord → GameRecord → Bool
same_match g h = elim g.match_id [
  | some match_id ↦ opt_is h.match_id match_id
  | none ↦ is_none h.match_id && same_engines g h
]

unfoldable pub pair_ids : ℕ → GameRecord → List GameRecord → List ℕ
unfolding same_match
pair_ids tournament_id g games =
    let ids = sort_by ltb (
      map (λ h. h.id)
        (keep (λ h. h.tournament_id == tournament_id && (same_match g h && in_pair g h)) games)) in
    if elem g.id ids then ids else sort_by ltb (ids ++ (g.id ∷ []))

unfoldable pub invalidate_pair_of :
    Option GameRecord → ℕ → Pool → Result ReplayError (List ℕ) × Pool
unfolding pair_ids are_committed delete_games delete_system_chat_events
invalidate_pair_of none tournament_id p = (err not_of_this_tournament, p)
invalidate_pair_of (some g) tournament_id p =
    let ids = pair_ids tournament_id g p.db.games in
    if are_committed ids p
    then (err already_rated, p)
    else (ok ids, delete_games ids (delete_system_chat_events tournament_id ids p))

unfoldable pub invalidate_game_pair : ℕ → ℕ → Pool → Result ReplayError (List ℕ) × Pool
unfolding invalidate_pair_of
invalidate_game_pair tournament_id game_id p =
    invalidate_pair_of (first (of_tournament tournament_id game_id) p.db.games) tournament_id p

pub record ParticipantGameRemoval : Type 0 where
  pub game_ids : List ℕ
  pub pending : ℕ
  pub assigned : ℕ
  pub live : ℕ
  pub finished : ℕ
  pub abandoned : ℕ

abbrev pub plays_in : ℕ → ℕ → GameRecord → Bool
plays_in tournament_id engine_id g =
    g.tournament_id == tournament_id
    && (g.white_engine_id == engine_id || g.black_engine_id == engine_id)

unfoldable pub removal_of : List GameRecord → ParticipantGameRemoval
unfolding row_count
removal_of games = record {
  game_ids = sort_by ltb (map (λ g. g.id) games);
  pending = row_count (λ g. is_pending g.status) games;
  assigned = row_count (λ g. is_assigned g.status) games;
  live = row_count (λ g. is_live g.status) games;
  finished = row_count (λ g. is_finished g.status) games;
  abandoned = row_count (λ g. is_abandoned g.status) games;
}

-- Without a game nothing is deleted.
unfoldable pub invalidate_tournament_participant_games :
    ℕ → ℕ → Pool → Result ReplayError ParticipantGameRemoval × Pool
unfolding are_committed delete_games delete_system_chat_events removal_of
invalidate_tournament_participant_games tournament_id engine_id p =
    let games = keep (plays_in tournament_id engine_id) p.db.games in
    let removal = removal_of games in
    if is_empty games
    then (ok removal, p)
    else if are_committed removal.game_ids p
    then (err already_rated, p)
    else (
      ok removal,
      delete_games removal.game_ids (delete_system_chat_events tournament_id removal.game_ids p),
    )
