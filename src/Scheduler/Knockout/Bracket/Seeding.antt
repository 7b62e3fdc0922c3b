-- ===== src/Scheduler/Knockout/Bracket/Seeding.antt =====
-- The pairings of `generate_knockout_first_round` of cope/runner/scheduler.py.
use mathlib.Core.List.{Perm, filter_map}
use mathlib.Core.List.Perm
use cope_chess.Prelude.{
  ℕ, zero, suc, ◌+◌, ◌-◌, ◌*◌, ◌≤◌, ◌<◌, List, [], ◌∷◌, Option, none, some, ◌≡◌, ◌≢◌, ◌⊎◌, inl, inr,
  refl, ap, ◌∙◌, sym, arith, true, false, length, drop, map, range_from, All, leb, Bool-cases,
  perm_of_eq, get_or, ltb, get_elem?_in, drop_all, drop_get,
}
use cope_chess.Scheduler.RoundRobin.Facing.{values}
use cope_chess.Scheduler.Knockout.Bracket.{
  bracket_size, bracket_seed_order, seeded, in_pairs, first_pairings,
}
use cope_chess.Scheduler.Knockout.Bracket.Order.{
  PairSums, bracket_seed_order-IsOrder, bracket_size-lem,
}

-- the entrants of a list of pairings, in order
unfoldable pub both {ℓ} : {A : Type ℓ} → List (A × A) → List A
both [] = []
both ((a, b) ∷ ps) = a ∷ b ∷ both ps

-- somebody enters
abbrev pub Entered : Option ℕ × Option ℕ → Type 0
Entered (a, b) = (a ≢ none) ⊎ (b ≢ none)

seeded_in :
    (participants : List ℕ) (i : ℕ)
    → i < length participants
    → seeded participants (suc i) ≡ some (get_or participants i 0)
unfolding seeded
seeded_in participants i h =
    let test : leb (suc i) (length participants) ≡ true = ground arith in
    let index : suc i - 1 ≡ i = omega arith in rw (test, index) (get_elem?_in 0 participants i h)

seeded_out :
    (participants : List ℕ) (i : ℕ) → length participants ≤ i → seeded participants (suc i) ≡ none
unfolding seeded
seeded_out participants i h =
    let test : leb (suc i) (length participants) ≡ false = ground arith in rw test

-- reading the participants by seed, from the seed `i + 1` on, gives them all
values-seeded :
    (participants : List ℕ) (m i : ℕ)
    → length participants ≤ m + i
    → values (map (seeded participants) (range_from (suc i) m)) ≡ drop i participants
unfolding values filter_map
values-seeded participants zero i h = sym (drop_all i participants (omega arith))
values-seeded participants (suc m) i h =
    let rest = values-seeded participants m (suc i) (omega arith) in
    elim (Bool-cases (ltb i (length participants))) [
      | inl here ↦
          rw (seeded_in participants i (ground arith), drop_get 0 i participants (ground arith))
            (ap (λ l. get_or participants i 0 ∷ l) rest)
      | inr beyond ↦ rw (seeded_out participants i (ground arith)) (
          rest
          ∙ drop_all (suc i) participants (ground arith)
          ∙ sym (drop_all i participants (ground arith)))
    ]

seeded_some :
    (participants : List ℕ) (x : ℕ) → 1 ≤ x → x ≤ length participants → seeded participants x ≢ none
seeded_some participants zero h k = absurd (omega arith)
seeded_some participants (suc i) h k = λ e. cc (e, seeded_in participants i k)

record IsSplit (participants : List ℕ) (order : List ℕ) : Type 0 where
  pub pairs : List (Option ℕ × Option ℕ)
  pub splits : in_pairs (map (seeded participants) order) ≡ some pairs
  pub everyone : both pairs ≡ map (seeded participants) order
  pub entered : All Entered pairs

-- of two seeds that add up to less than twice the number of participants one is a participant's
Entered-of :
    (participants : List ℕ) (x y : ℕ)
    → 1 ≤ x
    → 1 ≤ y
    → x + y ≤ 2 * length participants
    → Entered (seeded participants x, seeded participants y)
Entered-of participants x y h k sum = elim (Bool-cases (leb x (length participants))) [
  | inl low ↦ inl (seeded_some participants x h (ground arith))
  | inr high ↦ inr (seeded_some participants y k (ground arith))
]

split :
    (m size : ℕ) (participants : List ℕ) (order : List ℕ)
    → PairSums m order
    → All (λ x. (1 ≤ x) × (x ≤ size)) order
    → m ≤ 2 * length participants
    → IsSplit participants order
unfolding in_pairs both
split m size participants [] s h k = record {
  pairs = [];
  splits = refl;
  everyone = refl;
  entered = tt;
}
split m size participants (x ∷ []) s h k = absurd s
split m size participants (x ∷ y ∷ order) s h k =
    let rest = split m size participants order s.1 h.1.1 k in
    record {
      pairs = (seeded participants x, seeded participants y) ∷ rest.pairs;
      splits = rw (rest.splits, in_pairs);
      everyone = ap (λ l. seeded participants x ∷ seeded participants y ∷ l) rest.everyone;
      entered = (Entered-of participants x y h.0.0 h.1.0.0 (omega (arith, s.0)), rest.entered);
    }

pub record IsFirstRound (participants : List ℕ) : Type 0 where
  pub pairings : List (Option ℕ × Option ℕ)
  pub result : first_pairings participants ≡ some pairings
  pub everyone : Perm (values (both pairings)) participants
  pub entered : All Entered pairings

-- The first round of a knockout tournament of two or more participants always forms, every
-- participant enters exactly one of its pairings, and no pairing is without an entrant.
pub first_pairings-IsFirstRound :
    (participants : List ℕ) → 2 ≤ length participants → IsFirstRound participants
unfolding first_pairings
first_pairings-IsFirstRound participants h =
    let (j, is_doubled, holds, tight) = bracket_size-lem (length participants) h in
    let size = bracket_size (length participants) in
    let order = bracket_seed_order-IsOrder j size is_doubled in
    let parts =
      split (size + 1) size participants (bracket_seed_order size) order.sums order.bounds
        (omega arith) in
    record {
      pairings = parts.pairs;
      result = parts.splits;
      everyone = rw parts.everyone (
          unfold values in
          Perm.trans (Perm.filter_map (λ o. o) (Perm.map (seeded participants) order.seeds))
            (perm_of_eq (values-seeded participants size 0 (omega arith))));
      entered = parts.entered;
    }
