-- ===== src/Prelude/Any.antt =====
-- Whether some element of a list passes a test, for the lists that queries build.
use Prim.Native.Nat.{ℕ, zero, suc, ◌+◌, ◌≤◌, ◌<◌}
use native.Mathlib.Omega.{arith}
use mathlib.Core.Path.{◌≡◌, refl, sym, ap, ◌∙◌}
use mathlib.Core.Logic.{inl, inr}
use mathlib.Core.Bool.{Bool, true, false, ◌&&◌, ◌||◌}
use mathlib.Core.List.{List, [], ◌∷◌, ◌++◌, map}
use cope_chess.Prelude.Tests.{any, all, keep, Bool-cases, ltb, ◌==◌}
use cope_chess.Prelude.Lists.{max_of, get_or, set, range_from}

module _ {ℓ} {A : Type ℓ} where
  pub any-append : (p : A → Bool) (xs ys : List A) → any p (xs ++ ys) ≡ (any p xs || any p ys)
  any-append p [] ys = refl
  any-append p (x ∷ xs) ys = ground (arith, any-append p xs ys)

  pub any-keep : (p q : A → Bool) (xs : List A) → any p (keep q xs) ≡ any (λ x. q x && p x) xs
  any-keep p q [] = refl
  any-keep p q (x ∷ xs) = ground (arith, any-keep p q xs)

  pub any-map {κ} :
      {B : Type κ} (p : B → Bool) (f : A → B) (xs : List A)
      → any p (map f xs) ≡ any (λ x. p (f x)) xs
  any-map p f [] = refl
  any-map p f (x ∷ xs) = ground (arith, any-map p f xs)

  pub any_ext : (p q : A → Bool) (xs : List A) → ((x : A) → p x ≡ q x) → any p xs ≡ any q xs
  any_ext p q [] h = refl
  any_ext p q (x ∷ xs) h = ground (arith, h x, any_ext p q xs h)

  pub any_mono :
      (p q : A → Bool) (xs : List A)
      → ((x : A) → p x ≡ true → q x ≡ true)
      → any p xs ≡ true
      → any q xs ≡ true
  any_mono p q [] h e = e
  any_mono p q (x ∷ xs) h e = ground (arith, h x, any_mono p q xs h)

  -- the largest value stays below a bound that no value exceeds
  pub max_of-bound :
      (f : A → ℕ) (b : ℕ) (xs : List A)
      → any (λ x. ltb b (f x)) xs ≡ false
      → max_of 0 (map f xs) ≤ b
  max_of-bound f b [] h = omega arith
  max_of-bound f b (x ∷ xs) h = ground (arith, max_of-bound f b xs)

  pub max_of-reaches :
      (f : A → ℕ) (v : ℕ) (xs : List A) → any (λ x. f x == v) xs ≡ true → v ≤ max_of 0 (map f xs)
  max_of-reaches f v [] h = ground arith
  max_of-reaches f v (x ∷ xs) h = ground (arith, max_of-reaches f v xs)

  pub any-none :
      (p q : A → Bool) (xs : List A)
      → ((x : A) → p x ≡ true → q x ≡ true)
      → any q xs ≡ false
      → any p xs ≡ false
  any-none p q [] h e = refl
  any-none p q (x ∷ xs) h e = ground (arith, h x, any-none p q xs h)

  pub max_of-top :
      (f : A → ℕ) (b : ℕ) (xs : List A)
      → max_of 0 (map f xs) ≤ b
      → any (λ x. ltb b (f x)) xs ≡ false
  max_of-top f b [] h = refl
  max_of-top f b (x ∷ []) h = ground arith
  max_of-top f b (x ∷ y ∷ ys) h = ground (arith, max_of-top f b (y ∷ ys))

  pub max_of-taken :
      (f : A → ℕ) (x : A) (xs : List A)
      → any (λ y. f y == max_of 0 (map f (x ∷ xs))) (x ∷ xs) ≡ true
  max_of-taken f x [] = ground arith
  max_of-taken f x (y ∷ ys) =
      let rest = max_of-taken f y ys in
      elim (Bool-cases (ltb (max_of 0 (map f (y ∷ ys))) (f x))) [
        | inl h ↦ ground arith
        | inr h ↦
            let same : max_of 0 (map f (x ∷ y ∷ ys)) ≡ max_of 0 (map f (y ∷ ys)) = ground arith in
            ap (λ (m : ℕ). (f x == m) || any (λ z. f z == m) (y ∷ ys)) same ∙ ground (arith, rest)
      ]

  pub all-append : (p : A → Bool) (xs ys : List A) → all p (xs ++ ys) ≡ (all p xs && all p ys)
  all-append p [] ys = refl
  all-append p (x ∷ xs) ys = ground (arith, all-append p xs ys)

  pub get_or-set-ne :
      (xs : List A) (i j : ℕ) (v d : A) → (i == j) ≡ false → get_or (set xs i v) j d ≡ get_or xs j d
  get_or-set-ne [] i j v d h = refl
  get_or-set-ne (x ∷ xs) zero zero v d h = absurd (ground arith)
  get_or-set-ne (x ∷ xs) zero (suc j) v d h = refl
  get_or-set-ne (x ∷ xs) (suc i) zero v d h = refl
  get_or-set-ne (x ∷ xs) (suc i) (suc j) v d h = get_or-set-ne xs i j v d (ground arith)

  pub get_or-set_default : (xs : List A) (i : ℕ) (d : A) → get_or (set xs i d) i d ≡ d
  get_or-set_default [] i d = refl
  get_or-set_default (x ∷ xs) zero d = refl
  get_or-set_default (x ∷ xs) (suc i) d = get_or-set_default xs i d

pub all_in-range :
    (p : ℕ → Bool) (start n x : ℕ)
    → all p (range_from start n) ≡ true
    → start ≤ x
    → x < start + n
    → p x ≡ true
all_in-range p start zero x h low high = absurd (omega arith)
all_in-range p start (suc n) x h low high = elim (Bool-cases (start == x)) [
  | inl e ↦ let same : start ≡ x = ground arith in ap p (sym same) ∙ ground arith
  | inr e ↦ all_in-range p (suc start) n x (ground arith) (ground arith) (omega (arith, high))
]
