-- ===== src/Scheduler/Swiss/Pairing.antt =====
-- `_opponent_history` and `_swiss_pairings` of cope/runner/scheduler.py: backtracking over the
-- ranked players.
pub mod Sound
pub mod Complete
use cope_chess.Prelude.{
  ℕ, zero, suc, ◌+◌, ◌-◌, List, [], ◌∷◌, Option, none, some, Bool, true, false, not, ◌&&◌, ◌||◌,
  ltb, ◌==◌, if◌then◌else◌, keep, elem, length, sort_by,
}
use cope_chess.Tournament.Records.{GameRecord}
use cope_chess.Scheduler.RoundRobin.{Pairing}

-- a dictionary of sets: the opponents of each engine
abbrev pub Opponents : Type 0
Opponents = ℕ → List ℕ

-- `opponents.setdefault(a, set()).add(b)`
unfoldable pub add_opponent : ℕ → ℕ → Opponents → Opponents
add_opponent a b opponents k = if k == a then b ∷ opponents k else opponents k

history_from : List GameRecord → Opponents → Opponents
history_from [] opponents = opponents
history_from (game ∷ games) opponents = history_from games (
    add_opponent game.black_engine_id game.white_engine_id
      (add_opponent game.white_engine_id game.black_engine_id opponents))

unfoldable pub opponent_history : List GameRecord → Opponents
unfolding history_from add_opponent
opponent_history games = history_from games (λ k. [])

-- `second in opponents.get(first, set())`
abbrev pub have_met : Opponents → ℕ → ℕ → Bool
have_met opponents a b = elem b (opponents a)

-- `abs(a - b)` of numbers
abbrev pub dist : ℕ → ℕ → ℕ
dist a b = (a - b) + (b - a)

-- the key `(met, point distance, rank distance)` of a candidate, compared as a tuple
candidate_before : Opponents → (ℕ → ℕ) → (ℕ → ℕ) → ℕ → ℕ → ℕ → Bool
candidate_before opponents points rank a x y =
    let met_x = have_met opponents a x in
    let met_y = have_met opponents a y in
    let gap_x = dist (points a) (points x) in
    let gap_y = dist (points a) (points y) in
    (not met_x && met_y)
    || ((met_x && met_y || not met_x && not met_y)
        && (ltb gap_x gap_y
            || (gap_x == gap_y && ltb (dist (rank a) (rank x)) (dist (rank a) (rank y)))))

module _ (opponents : Opponents) where
  -- the loop over the candidates; `pair_rest` is the recursive call
  unfoldable pub try_candidates :
      (List ℕ → Option (List Pairing)) → Bool → ℕ → List ℕ → List ℕ → Option (List Pairing)
  try_candidates pair_rest allow_rematches a others [] = none
  try_candidates pair_rest allow_rematches a others (b ∷ more) =
      let next = try_candidates pair_rest allow_rematches a others more in
      if not allow_rematches && have_met opponents a b
      then next
      else elim (pair_rest (keep (λ e. not (e == b)) others)) [
        | some paired_rest ↦ some ((a, b) ∷ paired_rest)
        | none ↦ next
      ]

module _ (opponents : Opponents) (points rank : ℕ → ℕ) where
  unfoldable pub candidates : ℕ → List ℕ → List ℕ
  unfolding candidate_before
  candidates a others = sort_by (candidate_before opponents points rank a) others

  -- `pair`, on fuel: each call is on a shorter list
  unfoldable pub pair : ℕ → Bool → List ℕ → Option (List Pairing)
  unfolding try_candidates candidates
  pair fuel allow_rematches [] = some []
  pair zero allow_rematches (a ∷ others) = none
  pair (suc fuel) allow_rematches (a ∷ others) =
      try_candidates opponents (pair fuel allow_rematches) allow_rematches a others
        (candidates a others)

-- `xs or …`: a result that is `None` or the empty list is passed over
unfoldable pub or_else : Option (List Pairing) → List Pairing → List Pairing
or_else (some (p ∷ ps)) otherwise = p ∷ ps
or_else _ otherwise = otherwise

-- the position of an engine in `ranked`
unfoldable pub index_of : List ℕ → ℕ → ℕ
index_of [] a = 0
index_of (x ∷ xs) a = if x == a then 0 else suc (index_of xs a)

unfoldable pub swiss_pairings : List ℕ → (ℕ → ℕ) → Opponents → List Pairing
unfolding pair or_else
swiss_pairings ranked points opponents =
    let run = pair opponents points (index_of ranked) (length ranked) in
    or_else (run false ranked) (or_else (run true ranked) [])
