-- ===== src/Prelude/Perms.antt =====
-- What permuted lists share, measured by native numbers.
use Prim.Native.Nat.{ℕ, zero, suc, ◌+◌, ◌-◌, ◌≤◌, ◌<◌}
use native.Mathlib.Nat.{ℕ_set, zero-add, suc-add}
use native.Mathlib.Omega.{arith}
use mathlib.Core.Path.{◌≡◌, refl, ap, ◌∙◌}
use mathlib.Core.Logic.{∥∥₁_elim}
use mathlib.Core.Option.{some}
use mathlib.Core.List.{List, [], ◌∷◌, ◌++◌, Perm, Permᴰ}
use mathlib.Core.List.Perm
use mathlib.Core.Bool.{Bool, Bool-set}
use cope_chess.Prelude.Tests.{any}
use cope_chess.Prelude.Lists.{length, take, drop, get_or, get_elem?}

module _ {ℓ} {A : Type ℓ} where
  permᴰ_length : {xs ys : List A} → Permᴰ xs ys → length xs ≡ length ys
  permᴰ_length Permᴰ.nil = refl
  permᴰ_length (Permᴰ.cons e p) = ap suc (permᴰ_length p)
  permᴰ_length (Permᴰ.swap e f) = refl
  permᴰ_length (Permᴰ.trans p q) = permᴰ_length p ∙ permᴰ_length q

  pub perm_length : {xs ys : List A} → Perm xs ys → length xs ≡ length ys
  perm_length p = ∥∥₁_elim p (ℕ_set _ _) permᴰ_length

  pub perm_of_eq : {xs ys : List A} → xs ≡ ys → Perm xs ys
  perm_of_eq {xs} e = rw (← e) (Perm.refl xs)

  -- the last element of a longer prefix
  pub take-suc :
      (d : A) (n : ℕ) (xs : List A)
      → n < length xs
      → take (suc n) xs ≡ take n xs ++ get_or xs n d ∷ []
  take-suc d n [] h = absurd (omega arith)
  take-suc d zero (x ∷ xs) h = refl
  take-suc d (suc n) (x ∷ xs) h = ap (λ l. x ∷ l) (take-suc d n xs (omega arith))

  pub drop_get :
      (d : A) (n : ℕ) (xs : List A) → n < length xs → drop n xs ≡ get_or xs n d ∷ drop (suc n) xs
  drop_get d n [] h = absurd (omega arith)
  drop_get d zero (x ∷ xs) h = refl
  drop_get d (suc n) (x ∷ xs) h = drop_get d n xs (omega arith)

  pub get_or-drop : (d : A) (m n : ℕ) (xs : List A) → get_or (drop m xs) n d ≡ get_or xs (m + n) d
  get_or-drop d zero n xs = rw zero-add
  get_or-drop d (suc m) n [] = refl
  get_or-drop d (suc m) n (x ∷ xs) = rw suc-add (get_or-drop d m n xs)

  pub length-drop : (n : ℕ) (xs : List A) → length (drop n xs) ≡ length xs - n
  length-drop zero xs = omega arith
  length-drop (suc n) [] = omega arith
  length-drop (suc n) (x ∷ xs) = omega (arith, length-drop n xs)

  pub take_all : (n : ℕ) (xs : List A) → length xs ≤ n → take n xs ≡ xs
  take_all zero [] h = refl
  take_all zero (x ∷ xs) h = absurd (omega arith)
  take_all (suc n) [] h = refl
  take_all (suc n) (x ∷ xs) h = ap (λ l. x ∷ l) (take_all n xs (omega arith))

  pub take-append-drop : (n : ℕ) (xs : List A) → take n xs ++ drop n xs ≡ xs
  take-append-drop zero xs = refl
  take-append-drop (suc n) [] = refl
  take-append-drop (suc n) (x ∷ xs) = ap (λ l. x ∷ l) (take-append-drop n xs)

  pub drop_all : (n : ℕ) (xs : List A) → length xs ≤ n → drop n xs ≡ []
  drop_all zero [] h = refl
  drop_all zero (x ∷ xs) h = absurd (omega arith)
  drop_all (suc n) [] h = refl
  drop_all (suc n) (x ∷ xs) h = drop_all n xs (omega arith)

  pub get_elem?_in :
      (d : A) (xs : List A) (n : ℕ) → n < length xs → get_elem? xs n ≡ some (get_or xs n d)
  get_elem?_in d [] n h = absurd (omega arith)
  get_elem?_in d (x ∷ xs) zero h = refl
  get_elem?_in d (x ∷ xs) (suc n) h = get_elem?_in d xs n (omega arith)

  any_permᴰ : (p : A → Bool) {xs ys : List A} → Permᴰ xs ys → any p xs ≡ any p ys
  any_permᴰ p Permᴰ.nil = refl
  any_permᴰ p (Permᴰ.cons e q) = ground (arith, ap p e, any_permᴰ p q)
  any_permᴰ p (Permᴰ.swap e f) = ground (arith, ap p e, ap p f)
  any_permᴰ p (Permᴰ.trans q r) = any_permᴰ p q ∙ any_permᴰ p r

  pub any_perm : (p : A → Bool) {xs ys : List A} → Perm xs ys → any p xs ≡ any p ys
  any_perm p q = ∥∥₁_elim q (Bool-set _ _) (any_permᴰ p)
