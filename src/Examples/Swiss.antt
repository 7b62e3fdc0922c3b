-- ===== src/Examples/Swiss.antt =====
-- A Swiss round of five engines.
use mathlib.Core.List.{Perm}
use cope_chess.Prelude.{
  ℕ, ◌≡◌, ◌+◌, ◌-◌, ◌*◌, ◌%◌, refl, List, [], ◌∷◌, ◌++◌, some, not, true, false, All, any, elem,
  length,
}
use cope_chess.Tournament.Records.{white_wins, draw}
use cope_chess.Scheduler.RoundRobin.Facing.{flat}
use cope_chess.Scheduler.Swiss.Points.{Points, swiss_points}
use cope_chess.Scheduler.Swiss.Points.Total.{keys, total, with_result, byes, swiss_points-total}
use cope_chess.Scheduler.Swiss.Pairing.{swiss_pairings, Opponents, add_opponent}
use cope_chess.Scheduler.Swiss.Pairing.Sound.{Fresh}
use cope_chess.Scheduler.Swiss.Pairing.Complete.{
  done, match_first, swiss_pairings-perm, swiss_pairings-Fresh,
}
use cope_chess.Scheduler.Swiss.Round.{
  bye_of, previous_byes, swiss_ranking, round_pairs, without_bye,
}
use cope_chess.Scheduler.Swiss.Round.Everyone.{bye_list, bye_of-lem, swiss_round-everyone}
use cope_chess.Examples.Data.{played_game, bye_match}

abbrev four : List ℕ
four = 1 ∷ 2 ∷ 3 ∷ 4 ∷ []

abbrev three : List ℕ
three = 4 ∷ 5 ∷ 6 ∷ []

-- 1 has met 2
abbrev met : Opponents
unfolding add_opponent
met = add_opponent 2 1 (add_opponent 1 2 (λ e. []))

swiss_pairings-perm_example : Perm (flat (swiss_pairings four (λ e. 4 - e) met)) four
swiss_pairings-perm_example =
    swiss_pairings-perm four 2 (λ e. 4 - e) met refl (refl, (refl, (refl, (refl, tt))))

swiss_pairings-Fresh_example : All (Fresh met) (swiss_pairings four (λ e. 4 - e) met)
unfolding met
swiss_pairings-Fresh_example =
    swiss_pairings-Fresh four (λ e. 4 - e) met (refl, (refl, (refl, (refl, tt))))
      (match_first 1 3 (2 ∷ 3 ∷ 4 ∷ []) refl refl (match_first 2 4 (4 ∷ []) refl refl done))

swiss_points-total_example :
    let games = played_game 1 4 5 (some white_wins) ∷ played_game 2 6 4 (some draw) ∷ [] in
    let matches = bye_match 6 ∷ [] in
    (points : Points) × (swiss_points three games matches ≡ some points)
    × (keys points ≡ three)
    × (total points ≡ 2 * with_result games + 2 * byes matches)
swiss_points-total_example =
    swiss_points-total three
      (played_game 1 4 5 (some white_wins) ∷ played_game 2 6 4 (some draw) ∷ []) (bye_match 6 ∷ [])
      ((refl, refl), ((refl, refl), tt)) (refl, tt)

bye_of-lem_example :
    let matches = bye_match 6 ∷ [] in
    let ranked = three in
    (e : ℕ) × (bye_of ranked matches ≡ some e)
    × (elem e ranked ≡ true)
    × (any (λ x. not (elem x (previous_byes matches))) ranked ≡ true
        → elem e (previous_byes matches) ≡ false)
bye_of-lem_example = bye_of-lem three (bye_match 6 ∷ []) refl

swiss_round-everyone_example :
    let participants = three in
    let ranked = swiss_ranking participants [] [] in
    let bye = bye_of ranked (bye_match 6 ∷ []) in
    let pairings = round_pairs 2 (without_bye bye ranked) [] [] in
    Perm (bye_list bye ++ flat pairings) participants
    × (length (bye_list bye) ≡ length participants % 2)
swiss_round-everyone_example =
    swiss_round-everyone three 2 [] [] [] (bye_match 6 ∷ []) (refl, (refl, (refl, tt)))
