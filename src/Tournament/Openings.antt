-- ===== src/Tournament/Openings.antt =====
-- `list_suite_opening_ids` of cope/db/repo.py and `_opening_ids` of cope/runner/scheduler.py: the
-- openings of a suite from a random position on, going round at the end.
pub mod Count
use cope_chess.Prelude.{
  ℕ, suc, ◌+◌, ◌-◌, ◌%◌, List, [], ◌++◌, Option, none, some, Bool, ltb, leb, ◌==◌, if◌then◌else◌,
  keep, map, length, take, sort_by, max_of, min,
}
use cope_chess.Tournament.Records.{Opening, TournamentRecord}
use cope_chess.Tournament.Store.{Db}

-- ORDER BY position
unfoldable pub position_before : Opening → Opening → Bool
position_before a b = ltb a.position b.position

abbrev pub of_suite : ℕ → Db → List Opening
of_suite suite_id db = keep (λ o. o.suite_id == suite_id) db.openings

unfoldable pub list_suite_openings : ℕ → Db → List Opening
unfolding position_before
list_suite_openings suite_id db = sort_by position_before (of_suite suite_id db)

unfoldable pub list_suite_opening_ids : ℕ → ℕ → ℕ → Db → List ℕ
unfolding position_before
list_suite_opening_ids suite_id limit start_position db =
    let suite = of_suite suite_id db in
    let opening_ids =
      map (λ (o : Opening). o.id)
        (take limit (sort_by position_before (keep (λ o. leb start_position o.position) suite))) in
    let remaining = limit - length opening_ids in
    if leb limit 0
    then []
    else if ltb 0 remaining
    then opening_ids
      ++ map (λ (o : Opening). o.id)
          (take remaining
            (sort_by position_before (keep (λ o. ltb o.position start_position) suite)))
    else opening_ids

-- COALESCE(MAX(position), 0)
maximum_position : ℕ → Db → ℕ
maximum_position suite_id db = max_of 0 (map (λ (o : Opening). o.position) (of_suite suite_id db))

-- `random.randint(1, maximum)` with the next raw number
randint : ℕ → Db → ℕ × Db
randint maximum db = (1 + db.draws db.drawn % maximum, record db { drawn = suc db.drawn })

unfoldable pub opening_ids_of : Option ℕ → ℕ → Db → List ℕ × Db
unfolding maximum_position randint
opening_ids_of none limit db = ([], db)
opening_ids_of (some suite_id) limit db =
    let maximum = maximum_position suite_id db in
    let (start_position, rolled) = randint maximum db in
    if leb limit 0
    then ([], db)
    else if leb maximum 0
    then ([], db)
    else (list_suite_opening_ids suite_id (min limit maximum) start_position rolled, rolled)

unfoldable pub opening_ids : TournamentRecord → ℕ → Db → List ℕ × Db
unfolding opening_ids_of
opening_ids tournament limit db = opening_ids_of tournament.config.opening_suite_id limit db
