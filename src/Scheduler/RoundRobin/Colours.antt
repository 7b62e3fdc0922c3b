-- ===== src/Scheduler/RoundRobin/Colours.antt =====
-- The colours and the number of the games of a round-robin tournament.
use cope_chess.Prelude.{
  ℕ, suc, ◌+◌, ◌-◌, ◌*◌, List, [], ◌∷◌, ◌≡◌, refl, ap, ◌∙◌, arith, map, length, flat_map, sum,
  range, enumerate, length-enumerate, length-range_from, length-append,
}
use cope_chess.Scheduler.Create.{GameRequest}
use cope_chess.Scheduler.Create.Counts.{whites, blacks, balanced-flat_map, length-flat_map}
use cope_chess.Scheduler.RoundRobin.{Pairing, leg_request}
use cope_chess.Scheduler.RoundRobin.Plan.{
  pairing_requests, round_requests, cycle_requests, round_robin_plan,
}

pairing_requests-balanced :
    (e c n i o : ℕ) (p : Pairing)
    → whites e (pairing_requests c n i o p) ≡ blacks e (pairing_requests c n i o p)
unfolding whites blacks pairing_requests leg_request
pairing_requests-balanced e c n i o (a, b) = omega arith

pub whites-round_robin_plan :
    (e : ℕ) (rounds : List (List Pairing)) (cycles : ℕ)
    → whites e (round_robin_plan rounds cycles) ≡ blacks e (round_robin_plan rounds cycles)
unfolding round_robin_plan cycle_requests round_requests
whites-round_robin_plan e rounds cycles =
    balanced-flat_map e _
      (λ c.
        balanced-flat_map e _
          (λ r.
            balanced-flat_map e _ (λ p. pairing_requests-balanced e c _ _ _ p.1) (enumerate 1 r.1))
          (enumerate 1 rounds))
      (range cycles)

length-round_requests :
    (c n first : ℕ) (pairings : List Pairing)
    → length (round_requests c n first pairings) ≡ length pairings * 2
unfolding round_requests pairing_requests
length-round_requests c n first pairings = omega (
  arith,
  length-flat_map 2 (λ (p : ℕ × Pairing). pairing_requests c n p.0 (first + p.0 - 1) p.1)
      (λ p. refl) (enumerate 1 pairings),
  length-enumerate 1 pairings,
)

length-flat_map-sum :
    (f : ℕ × List Pairing → List GameRequest)
    → ((r : ℕ × List Pairing) → length (f r) ≡ length r.1 * 2)
    → (i : ℕ) (rounds : List (List Pairing))
    → length (flat_map f (enumerate i rounds)) ≡ sum (map length rounds) * 2
unfolding flat_map
length-flat_map-sum f each i [] = omega arith
length-flat_map-sum f each i (r ∷ rounds) = omega (
  arith,
  length-append (f (i, r)) (flat_map f (enumerate (suc i) rounds)),
  each (i, r),
  length-flat_map-sum f each (suc i) rounds,
)

-- It has two games for each pairing of each cycle.
pub length-round_robin_plan :
    (rounds : List (List Pairing)) (cycles : ℕ)
    → length (round_robin_plan rounds cycles) ≡ cycles * (sum (map length rounds) * 2)
unfolding round_robin_plan
length-round_robin_plan rounds cycles =
    let total = sum (map length rounds) * 2 in
    length-flat_map total (cycle_requests rounds)
      (λ c.
        unfold cycle_requests in
        length-flat_map-sum _ (λ r. length-round_requests c _ _ r.1) 1 rounds)
      (range cycles)
    ∙ ap (λ (n : ℕ). n * total) (length-range_from 0 cycles)
