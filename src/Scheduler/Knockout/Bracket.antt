-- ===== src/Scheduler/Knockout/Bracket.antt =====
-- `_bracket_seed_order` and the seeding of `generate_knockout_first_round` of
-- cope/runner/scheduler.py.
pub mod Order
pub mod Seeding
use cope_chess.Prelude.{
  ℕ, zero, suc, ◌+◌, ◌-◌, ◌*◌, ◌<◌, List, [], ◌∷◌, ◌++◌, Option, none, some, ltb, leb,
  if◌then◌else◌, get_elem?, length, map, take,
}

-- `while bracket_size < len(participants): bracket_size *= 2`, on fuel
unfoldable pub bracket_from : ℕ → ℕ → ℕ → ℕ
bracket_from zero size count = size
bracket_from (suc fuel) size count =
    let more = bracket_from fuel (size * 2) count in if ltb size count then more else size

unfoldable pub bracket_size : ℕ → ℕ
unfolding bracket_from
bracket_size count = bracket_from count 1 count

-- `[seed for current in order for seed in (current, mirror - current)]`
unfoldable pub interleave : ℕ → List ℕ → List ℕ
interleave mirror [] = []
interleave mirror (current ∷ order) = current ∷ (mirror - current) ∷ interleave mirror order

-- `while len(order) < size`, on fuel
unfoldable pub seed_order_from : ℕ → ℕ → List ℕ → List ℕ
unfolding interleave
seed_order_from zero size order = order
seed_order_from (suc fuel) size order =
    let more = seed_order_from fuel size (interleave (length order * 2 + 1) order) in
    if ltb (length order) size then more else order

unfoldable pub bracket_seed_order : ℕ → List ℕ
unfolding seed_order_from
bracket_seed_order size = take size (seed_order_from size size (1 ∷ 2 ∷ []))

-- `participants[seed_number - 1] if seed_number <= len(participants) else None`
unfoldable pub seeded : List ℕ → ℕ → Option ℕ
seeded participants seed_number =
    if leb seed_number (length participants) then get_elem? participants (seed_number - 1) else none

-- `[(xs[i], xs[i + 1]) for i in range(0, len(xs), 2)]`; `none` is the IndexError of an odd length
unfoldable pub in_pairs {ℓ} : {A : Type ℓ} → List A → Option (List (A × A))
in_pairs [] = some []
in_pairs (x ∷ []) = none
in_pairs (x ∷ y ∷ rest) = elim (in_pairs rest) [ none ↦ none | some ps ↦ some ((x, y) ∷ ps) ]

unfoldable pub first_pairings : List ℕ → Option (List (Option ℕ × Option ℕ))
unfolding in_pairs
first_pairings participants =
    in_pairs (map (seeded participants) (bracket_seed_order (bracket_size (length participants))))
