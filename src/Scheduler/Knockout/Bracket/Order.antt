-- ===== src/Scheduler/Knockout/Bracket/Order.antt =====
-- The seed order of a bracket, `_bracket_seed_order` of cope/runner/scheduler.py.
use mathlib.Core.List.{Perm, perm_append_singleton, perm_middle}
use mathlib.Core.List.Perm
use native.Mathlib.Nat.{zero-add, suc-add}
use cope_chess.Prelude.{
  ℕ, zero, suc, ◌+◌, ◌-◌, ◌*◌, ◌≤◌, ◌<◌, List, [], ◌∷◌, ◌++◌, ◌≡◌, ◌⊎◌, inl, inr, refl, ap, ◌∙◌,
  arith, true, false, Bool-cases, length, map, range_from, All, take_all, perm_of_eq, ltb,
}
use cope_chess.Scheduler.Knockout.Bracket.{
  bracket_from, bracket_size, interleave, seed_order_from, bracket_seed_order,
}

-- `s` doubled `j` times
unfoldable pub doubled : ℕ → ℕ → ℕ
doubled zero s = s
doubled (suc j) s = doubled j (s * 2)

pub doubled-le : (j s : ℕ) → s ≤ doubled j s
unfolding doubled
doubled-le zero s = omega arith
doubled-le (suc j) s = omega (arith, doubled-le j (s * 2))

-- the size of a bracket: a doubling that holds everybody, and no bigger than it must be
record IsSize (s count size : ℕ) : Type 0 where
  pub times : ℕ
  pub is_doubled : size ≡ doubled times s
  pub holds_all : count ≤ size
  pub tight : (size ≡ s) ⊎ (size < 2 * count)

bracket_from-IsSize :
    (fuel s count : ℕ) → 0 < s → count ≤ fuel + s → IsSize s count (bracket_from fuel s count)
unfolding bracket_from doubled
bracket_from-IsSize zero s count pos h = record {
  times = 0;
  is_doubled = refl;
  holds_all = omega arith;
  tight = inl refl;
}
bracket_from-IsSize (suc fuel) s count pos h = elim (Bool-cases (ltb s count)) [
  | inl more ↦
      let rest = bracket_from-IsSize fuel (s * 2) count (omega arith) (omega arith) in
      rw more (record {
        times = suc rest.times;
        is_doubled = rest.is_doubled;
        holds_all = rest.holds_all;
        tight = ground (arith, rest.tight);
      })
  | inr enough ↦
      rw enough
        (record { times = 0; is_doubled = refl; holds_all = ground arith; tight = inl refl })
]

-- neighbours add up to `m`
abbrev pub PairSums : ℕ → List ℕ → Type 0
PairSums m [] = Unit
PairSums m (x ∷ []) = ⊥
PairSums m (x ∷ y ∷ rest) = (x + y ≡ m) × PairSums m rest

pub record IsOrder (size : ℕ) (order : List ℕ) : Type 0 where
  pub bounds : All (λ x. (1 ≤ x) × (x ≤ size)) order
  pub sums : PairSums (size + 1) order
  pub seeds : Perm order (range_from 1 size)
  pub size_of : length order ≡ size

length-interleave : (m : ℕ) (order : List ℕ) → length (interleave m order) ≡ length order * 2
unfolding interleave
length-interleave m [] = omega arith
length-interleave m (x ∷ order) = omega (arith, length-interleave m order)

interleave-bounds :
    (n : ℕ) (order : List ℕ)
    → All (λ x. (1 ≤ x) × (x ≤ n)) order
    → All (λ x. (1 ≤ x) × (x ≤ n * 2)) (interleave (n * 2 + 1) order)
unfolding interleave
interleave-bounds n [] h = tt
interleave-bounds n (x ∷ order) h = (omega arith, (omega arith, interleave-bounds n order h.1))

interleave-sums :
    (n : ℕ) (order : List ℕ)
    → All (λ x. (1 ≤ x) × (x ≤ n)) order
    → PairSums (n * 2 + 1) (interleave (n * 2 + 1) order)
unfolding interleave
interleave-sums n [] h = tt
interleave-sums n (x ∷ order) h = (omega arith, interleave-sums n order h.1)

interleave-perm :
    (m : ℕ) (order : List ℕ) → Perm (interleave m order) (order ++ map (λ x. m - x) order)
unfolding interleave
interleave-perm m [] = Perm.refl _
interleave-perm m (x ∷ order) = Perm.cons x (
    Perm.trans (Perm.cons (m - x) (interleave-perm m order))
      (Perm.symm (perm_middle order (map (λ x. m - x) order))))

range_from-append :
    (s n k t : ℕ) → t ≡ s + n → range_from s n ++ range_from t k ≡ range_from s (n + k)
range_from-append s zero k t e = let same : t ≡ s = omega arith in rw (same, zero-add)
range_from-append s (suc n) k t e =
    rw suc-add (ap (λ l. s ∷ l) (range_from-append (suc s) n k t (omega arith)))

mirror-perm :
    (n c s t : ℕ) → c + 1 ≡ s + t + n → Perm (map (λ x. c - x) (range_from s n)) (range_from t n)
mirror-perm zero c s t e = Perm.refl _
mirror-perm (suc n) c s t e =
    let last : c - s ≡ t + n = omega arith in
    rw last (
      Perm.trans (Perm.cons (t + n) (mirror-perm n c (suc s) t (omega arith))) (
        Perm.trans (Perm.symm (perm_append_singleton (t + n) (range_from t n))) (
          perm_of_eq
            (range_from-append t n 1 (t + n) refl ∙ ap (range_from t) {y = suc n} (omega arith)))))

interleave-IsOrder :
    (n : ℕ) (order : List ℕ) → IsOrder n order → IsOrder (n * 2) (interleave (n * 2 + 1) order)
interleave-IsOrder n order h = record {
  bounds = interleave-bounds n order h.bounds;
  sums = interleave-sums n order h.bounds;
  seeds = Perm.trans (interleave-perm (n * 2 + 1) order) (
      Perm.trans
        (Perm.append h.seeds (
          Perm.trans (Perm.map (λ x. n * 2 + 1 - x) h.seeds)
            (mirror-perm n (n * 2 + 1) 1 (n + 1) (omega arith))))
        (perm_of_eq
          (range_from-append 1 n n (n + 1) (omega arith) ∙ ap (range_from 1) (omega arith))));
  size_of = omega (arith, length-interleave (n * 2 + 1) order, h.size_of);
}

-- the loop ends with an order of the wanted size
seed_order_from-IsOrder :
    (j fuel n size : ℕ) (order : List ℕ)
    → size ≡ doubled j n
    → 0 < n
    → size ≤ fuel + n
    → IsOrder n order
    → IsOrder size (seed_order_from fuel size order)
unfolding seed_order_from doubled
seed_order_from-IsOrder zero zero n size order e pos f h = rw e h
seed_order_from-IsOrder zero (suc fuel) n size order e pos f h =
    let over : ltb (length order) size ≡ false = ground (arith, h.size_of) in rw over (rw e h)
seed_order_from-IsOrder (suc j) zero n size order e pos f h =
    absurd (omega (arith, doubled-le j (n * 2)))
seed_order_from-IsOrder (suc j) (suc fuel) n size order e pos f h =
    let more : ltb (length order) size ≡ true = ground (arith, h.size_of, doubled-le j (n * 2)) in
    let mirror : length order * 2 + 1 ≡ n * 2 + 1 = omega (arith, h.size_of) in
    rw more (
      rw mirror (
        seed_order_from-IsOrder j fuel (n * 2) size (interleave (n * 2 + 1) order) e (omega arith)
          (omega arith) (interleave-IsOrder n order h)))

two-IsOrder : IsOrder 2 (1 ∷ 2 ∷ [])
two-IsOrder = record {
  bounds = omega arith;
  sums = omega arith;
  seeds = Perm.refl _;
  size_of = refl;
}

-- For a size that is 2, 4, 8, …, `_bracket_seed_order` holds every seed from 1 to the size once, and
-- the two seeds of each first-round pairing add up to one more than the size.
pub bracket_seed_order-IsOrder :
    (j size : ℕ) → size ≡ doubled j 2 → IsOrder size (bracket_seed_order size)
unfolding bracket_seed_order
bracket_seed_order-IsOrder j size e =
    let order = seed_order_from size size (1 ∷ 2 ∷ []) in
    let h =
      seed_order_from-IsOrder j size 2 size (1 ∷ 2 ∷ []) e (omega arith) (omega arith)
        two-IsOrder in
    rw (take_all size order (omega (arith, h.size_of))) h

doubled_one : (times size : ℕ) → 2 ≤ size → size ≡ doubled times 1 → (j : ℕ) × (size ≡ doubled j 2)
unfolding doubled
doubled_one zero size h e = absurd (omega arith)
doubled_one (suc j) size h e = (j, e)

-- The bracket of two or more entrants has a size 2, 4, 8, … that holds them all, and is less than
-- twice their number.
pub bracket_size-lem :
    (count : ℕ)
    → 2 ≤ count
    → (j : ℕ) × (bracket_size count ≡ doubled j 2)
      × (count ≤ bracket_size count)
      × (bracket_size count < 2 * count)
unfolding bracket_size
bracket_size-lem count h =
    let r = bracket_from-IsSize count 1 count (omega arith) (omega arith) in
    let (j, e) =
      doubled_one r.times (bracket_from count 1 count) (omega (arith, r.holds_all)) r.is_doubled in
    (j, e, r.holds_all, ground (arith, r.tight, r.holds_all))
