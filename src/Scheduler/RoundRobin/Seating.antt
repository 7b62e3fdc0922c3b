-- ===== src/Scheduler/RoundRobin/Seating.antt =====
-- Who sits where in the rounds of `_round_robin_pairings` of cope/runner/scheduler.py.
use mathlib.Core.List.{Perm, filter_map, filter_map-append, map}
use mathlib.Core.List.Perm
use cope_chess.Prelude.{
  ℕ, zero, suc, ◌+◌, ◌-◌, ◌/◌, ◌%◌, ◌≤◌, List, [], ◌∷◌, ◌++◌, Option, none, some, ◌≡◌, refl, ap,
  ◌∙◌, arith, length, range, ◌==◌, append-nil, perm_of_eq, perm_length, false, length-append,
  length-map, length-range_from, All, Bool-cases, inl, inr, ltb,
}
use cope_chess.Scheduler.RoundRobin.{
  Pairing, seats, rotate, round_pairings, rounds_from, round_robin_pairings,
}
use cope_chess.Scheduler.RoundRobin.Facing.{
  flat, values, idle_all, facing_all-perm, round_pairings-perm, length-flat, length-idle_all,
  rotate-perm,
}

-- One round: every participant sits at one board, but for one if their number is odd.
pub record Seats (participants : List ℕ) (pairings : List Pairing) : Type 0 where
  pub sitting_out : List ℕ
  pub at_most_one : length sitting_out ≡ length participants % 2
  pub everyone : Perm (flat pairings ++ sitting_out) participants

-- what the rotations keep
record IsSeated (participants : List ℕ) (players : List (Option ℕ)) : Type 0 where
  pub even : length players ≡ length participants + length participants % 2
  pub same : Perm (values players) participants

round-Seats :
    (participants : List ℕ) (players : List (Option ℕ)) (round_index : ℕ)
    → IsSeated participants players
    → Seats participants (round_pairings players round_index)
unfolding values
round-Seats participants players round_index s =
    let h = length players / 2 in
    let even : length players ≡ h + h = omega (arith, s.even) in
    let ps = round_pairings players round_index in
    let out = idle_all players (range h) in
    let all_seats = Perm.trans (round_pairings-perm players round_index h even) s.same in
    record {
      sitting_out = out;
      at_most_one = omega (
        arith,
        s.even,
        even,
        length-flat ps,
        length-append (flat ps) out,
        perm_length all_seats,
        length-idle_all players (range h),
        perm_length (Perm.filter_map (λ o. o) (facing_all-perm players h even)),
        perm_length s.same,
        length-range_from 0 h,
      );
      everyone = all_seats;
    }

rotate-IsSeated :
    (participants : List ℕ) (players : List (Option ℕ))
    → IsSeated participants players
    → IsSeated participants (rotate players)
unfolding values
rotate-IsSeated participants [] s = unfold rotate in s
rotate-IsSeated participants (x ∷ []) s = absurd (omega (arith, s.even))
rotate-IsSeated participants (x ∷ y ∷ ys) s = record {
  even = perm_length (rotate-perm x y ys) ∙ s.even;
  same = Perm.trans (Perm.filter_map (λ o. o) (rotate-perm x y ys)) s.same;
}

rounds_from-Seats :
    (participants : List ℕ) (left round_index : ℕ) (players : List (Option ℕ))
    → IsSeated participants players
    → All (Seats participants) (rounds_from left round_index players)
unfolding rounds_from
rounds_from-Seats participants zero round_index players s = tt
rounds_from-Seats participants (suc left) round_index players s = (
  round-Seats participants players round_index s,
  rounds_from-Seats participants left (suc round_index) (rotate players)
      (rotate-IsSeated participants players s),
)

values-some : (xs : List ℕ) → values (map some xs) ≡ xs
unfolding values filter_map
values-some [] = refl
values-some (x ∷ xs) = ap (λ l. x ∷ l) (values-some xs)

seats-IsSeated : (participants : List ℕ) → IsSeated participants (seats participants)
unfolding seats
seats-IsSeated participants =
    let n = length-map some participants in
    elim (Bool-cases (length (map some participants) % 2 == 1)) [
      | inl odd ↦ rw odd (record {
        even = ground (arith, length-append (map some participants) (none ∷ []), n);
        same = perm_of_eq (
            unfold values filter_map in
            filter_map-append (λ o. o) (map some participants) (none ∷ [])
            ∙ append-nil _
            ∙ values-some participants);
      })
      | inr even ↦
          rw even
            (record { even = ground (arith, n); same = perm_of_eq (values-some participants) })
    ]

-- In every round of `_round_robin_pairings` each participant sits at exactly one board, except that one
-- participant sits out exactly when their number is odd.
pub round_robin_pairings-Seats :
    (participants : List ℕ) → All (Seats participants) (round_robin_pairings participants)
unfolding round_robin_pairings
round_robin_pairings-Seats participants = elim (Bool-cases (ltb (length participants) 2)) [
  | inl few ↦ rw few tt
  | inr enough ↦ rw enough (
      rounds_from-Seats participants (length (seats participants) - 1) 0 (seats participants)
        (seats-IsSeated participants))
]

length-rounds_from :
    (left round_index : ℕ) (players : List (Option ℕ))
    → length (rounds_from left round_index players) ≡ left
unfolding rounds_from
length-rounds_from zero round_index players = refl
length-rounds_from (suc left) round_index players =
    ap suc (length-rounds_from left (suc round_index) (rotate players))

-- Two or more participants play one round fewer than the next even number of seats.
pub length-round_robin_pairings :
    (participants : List ℕ)
    → 2 ≤ length participants
    → length (round_robin_pairings participants) + 1 ≡ length participants + length participants % 2
unfolding round_robin_pairings
length-round_robin_pairings participants h =
    let few : ltb (length participants) 2 ≡ false = ground arith in
    rw few (
      omega (
        arith,
        length-rounds_from (length (seats participants) - 1) 0 (seats participants),
        (seats-IsSeated participants).even,
      ))
