-- ===== src/Tournament/Openings/Count.antt =====
-- How many openings a tournament gets.
use cope_chess.Prelude.{
  ℕ, ◌+◌, ◌-◌, ◌≤◌, List, [], ◌∷◌, ltb, leb, ◌≡◌, refl, ap, ◌∙◌, arith, keep, map, length, take,
  min, sort_by, sort_by-perm, perm_length, length-take, length-map, length-append, Bool-cases, inl,
  inr,
}
use cope_chess.Tournament.Records.{Opening}
use cope_chess.Tournament.Store.{Db}
use cope_chess.Tournament.Openings.{position_before, of_suite, list_suite_opening_ids}

split-length :
    (start : ℕ) (xs : List Opening)
    → length (keep (λ (o : Opening). leb start o.position) xs)
        + length (keep (λ (o : Opening). ltb o.position start) xs)
      ≡ length xs
split-length start [] = refl
split-length start (x ∷ xs) = ground (arith, split-length start xs)

taken-length :
    (n : ℕ) (xs : List Opening)
    → length (map (λ (o : Opening). o.id) (take n (sort_by position_before xs))) ≡ min n (length xs)
taken-length n xs =
    length-map (λ (o : Opening). o.id) (take n (sort_by position_before xs))
    ∙ length-take n (sort_by position_before xs)
    ∙ ap (min n) (perm_length (sort_by-perm position_before xs))

-- From whatever position a suite is read, going round at its end, it gives as many openings as are
-- asked for, or all of its openings if it has fewer.
pub list_suite_opening_ids-length :
    (suite_id limit start_position : ℕ) (db : Db)
    → length (list_suite_opening_ids suite_id limit start_position db)
      ≡ min limit (length (of_suite suite_id db))
unfolding list_suite_opening_ids
list_suite_opening_ids-length suite_id limit start_position db =
    let suite = of_suite suite_id db in
    let high = keep (λ (o : Opening). leb start_position o.position) suite in
    let low = keep (λ (o : Opening). ltb o.position start_position) suite in
    let first_ids = map (λ (o : Opening). o.id) (take limit (sort_by position_before high)) in
    let remaining = limit - length first_ids in
    let all = split-length start_position suite in
    let one = taken-length limit high in
    elim (Bool-cases (leb limit 0)) [
      | inl e ↦ rw e (ground arith)
      | inr e ↦ elim (Bool-cases (ltb 0 remaining)) [
        | inr f ↦
            let none_left : remaining ≤ 0 = ground (arith, f) in
            rw (e, f) (omega (arith, none_left, all, one))
        | inl f ↦
            rw (e, f)
              (length-append first_ids _ ∙ omega (arith, all, one, taken-length remaining low))
      ]
    ]
