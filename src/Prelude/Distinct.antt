-- ===== src/Prelude/Distinct.antt =====
-- Lists of numbers without repetition, and taking one element out.
use Prim.Native.Nat.{ℕ}
use native.Mathlib.Omega.{arith}
use mathlib.Core.Path.{◌≡◌, refl, ap, ◌∙◌, sym}
use mathlib.Core.Logic.{inl, inr}
use mathlib.Core.Bool.{Bool, true, false, not}
use mathlib.Core.List.{List, [], ◌∷◌, Perm}
use mathlib.Core.List.Perm
use cope_chess.Prelude.Tests.{◌==◌, ==_iff, elem, keep, Bool-cases}
use cope_chess.Prelude.Perms.{perm_of_eq}
use cope_chess.Prelude.Sorting.{insert_by, sort_by, any-insert_by, any-sort_by}

abbrev pub Unique : List ℕ → Type 0
Unique [] = Unit
Unique (x ∷ xs) = (elem x xs ≡ false) × Unique xs

-- `[e for e in xs if e != b]`
abbrev pub dropping : ℕ → List ℕ → List ℕ
dropping b xs = keep (λ e. not (e == b)) xs

elem-dropping-false : (a b : ℕ) (xs : List ℕ) → elem a xs ≡ false → elem a (dropping b xs) ≡ false
elem-dropping-false a b [] h = refl
elem-dropping-false a b (x ∷ xs) h = ground (arith, elem-dropping-false a b xs)

pub dropping-Unique : (b : ℕ) (xs : List ℕ) → Unique xs → Unique (dropping b xs)
dropping-Unique b [] h = tt
dropping-Unique b (x ∷ xs) h = elim (Bool-cases (x == b)) [
  | inl e ↦ rw e (dropping-Unique b xs h.1)
  | inr ne ↦ rw ne (elem-dropping-false x b xs h.0, dropping-Unique b xs h.1)
]

dropping_absent : (b : ℕ) (xs : List ℕ) → elem b xs ≡ false → dropping b xs ≡ xs
dropping_absent b [] h = refl
dropping_absent b (x ∷ xs) h = ground (arith, dropping_absent b xs)

-- what is taken out goes back in
pub dropping-perm :
    (b : ℕ) (xs : List ℕ) → Unique xs → elem b xs ≡ true → Perm (b ∷ dropping b xs) xs
dropping-perm b [] u h = cc
dropping-perm b (x ∷ xs) u h = elim (Bool-cases (x == b)) [
  | inl e ↦
      let same = (==_iff x b).0 e in
      rw e (
        perm_of_eq (
          ap (λ y. y ∷ dropping b xs) (sym same)
          ∙ ap (λ l. x ∷ l) (dropping_absent b xs (ground (arith, same, u.0)))))
  | inr ne ↦
      rw ne
        (Perm.trans (Perm.swap _ _ _) (Perm.cons x (dropping-perm b xs u.1 (ground (arith, h)))))
]

module _ (before : ℕ → ℕ → Bool) where
  insert_by-Unique :
      (x : ℕ) (xs : List ℕ) → elem x xs ≡ false → Unique xs → Unique (insert_by before x xs)
  unfolding insert_by
  insert_by-Unique x [] h u = (refl, tt)
  insert_by-Unique x (y ∷ ys) h u = elim (Bool-cases (before y x)) [
    | inl later ↦ rw later (
      any-insert_by before (λ z. y == z) x ys ∙ ground (arith, h, u.0),
      insert_by-Unique x ys (ground arith) u.1,
    )
    | inr here ↦ rw here (h, u)
  ]

  pub sort_by-Unique : (xs : List ℕ) → Unique xs → Unique (sort_by before xs)
  unfolding sort_by
  sort_by-Unique [] u = tt
  sort_by-Unique (x ∷ xs) u =
      insert_by-Unique x (sort_by before xs) (any-sort_by before (λ z. x == z) xs ∙ u.0)
        (sort_by-Unique xs u.1)
