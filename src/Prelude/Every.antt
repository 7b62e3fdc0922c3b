-- ===== src/Prelude/Every.antt =====
-- Properties of every element of a list, and of the only element with a key.
use Prim.Native.Nat.{ℕ}
use native.Mathlib.Omega.{arith}
use mathlib.Core.Path.{◌≡◌, refl, sym, ap, ◌∙◌, subst}
use mathlib.Core.Logic.{inl, inr}
use mathlib.Core.Bool.{Bool, true, false, ◌&&◌}
use mathlib.Core.Option.{none, some}
use mathlib.Core.List.{List, [], ◌∷◌, ◌++◌, map}
use cope_chess.Prelude.Tests.{
  ◌==◌, ==_iff, ==_refl, any, elem, keep, first, if◌then◌else◌, Bool-cases,
}
use cope_chess.Prelude.Lists.{All}
use cope_chess.Prelude.Distinct.{Unique}

module _ {ℓ} {A : Type ℓ} where
  pub All-imp {κ μ} :
      (P : A → Type κ) (Q : A → Type μ) (xs : List A) → ((x : A) → P x → Q x) → All P xs → All Q xs
  All-imp P Q [] f h = tt
  All-imp P Q (x ∷ xs) f h = (f x h.0, All-imp P Q xs f h.1)

  pub All-map {κ μ ν} :
      {B : Type ν} (P : A → Type κ) (Q : B → Type μ) (f : A → B) (xs : List A)
      → ((x : A) → P x → Q (f x))
      → All P xs
      → All Q (map f xs)
  All-map P Q f [] h p = tt
  All-map P Q f (x ∷ xs) h p = (h x p.0, All-map P Q f xs h p.1)

  pub All-all {κ} : (P : A → Type κ) (xs : List A) → ((x : A) → P x) → All P xs
  All-all P [] f = tt
  All-all P (x ∷ xs) f = (f x, All-all P xs f)

  pub All-both {κ μ} :
      (P : A → Type κ) (Q : A → Type μ) (xs : List A)
      → All P xs
      → All Q xs
      → All (λ x. P x × Q x) xs
  All-both P Q [] p q = tt
  All-both P Q (x ∷ xs) p q = ((p.0, q.0), All-both P Q xs p.1 q.1)

  -- what holds of all elements holds of those that a filter leaves
  pub All-kept {κ} : (P : A → Type κ) (q : A → Bool) (xs : List A) → All P xs → All P (keep q xs)
  All-kept P q [] p = tt
  All-kept P q (x ∷ xs) p = elim (Bool-cases (q x)) [
    | inl e ↦ rw e (p.0, All-kept P q xs p.1)
    | inr e ↦ rw e (All-kept P q xs p.1)
  ]

  -- an element that passes a test is one that `any` finds
  pub any_self {κ} :
      {B : Type κ} (t : B → A → Bool) (xs : List A)
      → All (λ x. (b : B) → t b x ≡ true → any (t b) xs ≡ true) xs
  any_self t [] = tt
  any_self t (x ∷ xs) = (
    λ b e. ground (arith, e),
    All-imp _ _ xs (λ y h b e. let rest = h b e in ground (arith, rest)) (any_self t xs),
  )

  pub absent-all :
      (f : A → ℕ) (v : ℕ) (xs : List A)
      → elem v (map f xs) ≡ false
      → All (λ x. (f x == v) ≡ false) xs
  absent-all f v [] h = tt
  absent-all f v (x ∷ xs) h = (ground arith, absent-all f v xs (ground arith))

  absent-any :
      (f : A → ℕ) (p : A → Bool) (v : ℕ) (xs : List A)
      → elem v (map f xs) ≡ false
      → any (λ x. (f x == v) && p x) xs ≡ false
  absent-any f p v [] h = refl
  absent-any f p v (x ∷ xs) h = ground (arith, absent-any f p v xs)

  -- Of the elements with different keys only one has a given key.
  pub unique-only :
      (f : A → ℕ) (p : A → Bool) (v : ℕ) (xs : List A)
      → Unique (map f xs)
      → any (λ x. (f x == v) && p x) xs ≡ true
      → All (λ x. (f x == v) ≡ true → p x ≡ true) xs
  unique-only f p v [] u h = tt
  unique-only f p v (x ∷ xs) u h = elim (Bool-cases (f x == v)) [
    | inl e ↦
        let absent : elem v (map f xs) ≡ false =
          ap (λ w. elem w (map f xs)) (sym ((==_iff (f x) v).0 e)) ∙ u.0 in
        let none = absent-any f p v xs absent in
        (
          λ _. ground (arith, h, none),
          All-imp _ _ xs (λ y ne e'. absurd (ground (arith, ne, e'))) (absent-all f v xs absent),
        )
    | inr e ↦
        (λ e'. absurd (ground (arith, e, e')), unique-only f p v xs u.1 (ground (arith, h, e)))
  ]

  -- filters and updates that leave the keys leave them different
  elem-map-keep_absent :
      (f : A → ℕ) (q : A → Bool) (v : ℕ) (xs : List A)
      → elem v (map f xs) ≡ false
      → elem v (map f (keep q xs)) ≡ false
  elem-map-keep_absent f q v [] h = refl
  elem-map-keep_absent f q v (x ∷ xs) h =
      let rest = elem-map-keep_absent f q v xs (ground arith) in
      elim (Bool-cases (q x)) [ inl e ↦ rw e (ground (arith, h, rest)) | inr e ↦ rw e rest ]

  pub Unique-map-keep :
      (f : A → ℕ) (q : A → Bool) (xs : List A) → Unique (map f xs) → Unique (map f (keep q xs))
  Unique-map-keep f q [] u = tt
  Unique-map-keep f q (x ∷ xs) u = elim (Bool-cases (q x)) [
    | inl e ↦ rw e (elem-map-keep_absent f q (f x) xs u.0, Unique-map-keep f q xs u.1)
    | inr e ↦ rw e (Unique-map-keep f q xs u.1)
  ]

  pub map-map_same {κ} :
      {B : Type κ} (k : A → B) (f : A → A) (xs : List A)
      → ((x : A) → k (f x) ≡ k x)
      → map k (map f xs) ≡ map k xs
  map-map_same k f [] h = refl
  map-map_same k f (x ∷ xs) h =
      ap (λ y. y ∷ map k (map f xs)) (h x) ∙ ap (λ l. k x ∷ l) (map-map_same k f xs h)

  pub Unique-snoc :
      (f : A → ℕ) (x : A) (xs : List A)
      → All (λ y. (f y == f x) ≡ false) xs
      → Unique (map f xs)
      → Unique (map f (xs ++ (x ∷ [])))
  Unique-snoc f x [] ne u = (refl, tt)
  Unique-snoc f x (y ∷ ys) ne u = (snoc_absent (f y) ys u.0 ne.0, Unique-snoc f x ys ne.1 u.1)
    where
      snoc_absent :
          (v : ℕ) (ys : List A)
          → elem v (map f ys) ≡ false
          → (v == f x) ≡ false
          → elem v (map f (ys ++ (x ∷ []))) ≡ false
      snoc_absent v [] h e = ground arith
      snoc_absent v (z ∷ zs) h e =
          let rest = snoc_absent v zs (ground arith) e in ground (arith, rest)

  -- no element passes a test that `any` finds none for
  pub any-false : (p : A → Bool) (xs : List A) → any p xs ≡ false → All (λ x. p x ≡ false) xs
  any-false p [] h = tt
  any-false p (x ∷ xs) h = (ground arith, any-false p xs (ground arith))

  -- what follows from any element that passes a test follows
  pub All-any {κ μ} :
      (P : A → Type κ) (q : A → Bool) (C : Type μ) (xs : List A)
      → All P xs
      → any q xs ≡ true
      → ((x : A) → P x → q x ≡ true → C)
      → C
  All-any P q C [] h e f = absurd cc
  All-any P q C (x ∷ xs) h e f = elim (Bool-cases (q x)) [
    | inl t ↦ f x h.0 t
    | inr t ↦ All-any P q C xs h.1 (ground (arith, e, t)) f
  ]

  pub All-diag {κ} :
      (R : A → A → Type κ) (xs : List A) → ((x : A) → All (R x) xs) → All (λ x. R x x) xs
  All-diag R [] h = tt
  All-diag R (x ∷ xs) h = ((h x).0, All-diag R xs (λ y. (h y).1))

  -- a key of the elements that a filter leaves
  pub elem-map-keep :
      (f : A → ℕ) (q : A → Bool) (v : ℕ) (xs : List A)
      → elem v (map f (keep q xs)) ≡ true
      → any (λ x. (f x == v) && q x) xs ≡ true
  elem-map-keep f q v [] h = h
  elem-map-keep f q v (x ∷ xs) h = elim (Bool-cases (q x)) [
    | inl t ↦ elim (Bool-cases (f x == v)) [
      | inl e ↦ ground (arith, e, t)
      | inr e ↦
          let kept : elem v (f x ∷ map f (keep q xs)) ≡ true =
            ap (λ c. elem v (map f (if c then x ∷ keep q xs else keep q xs))) (sym t) ∙ h in
          let rest = elem-map-keep f q v xs (ground (arith, kept, e)) in ground (arith, rest)
    ]
    | inr t ↦
        let kept : elem v (map f (keep q xs)) ≡ true =
          ap (λ c. elem v (map f (if c then x ∷ keep q xs else keep q xs))) (sym t) ∙ h in
        let rest = elem-map-keep f q v xs kept in ground (arith, rest)
  ]

  -- Whatever element has the key of one that passes a test passes it.
  pub unique-same :
      (f : A → ℕ) (p : A → Bool) (xs : List A)
      → Unique (map f xs)
      → All (λ y. any (λ x. (f x == f y) && p x) xs ≡ true → p y ≡ true) xs
  unique-same f p xs u =
      All-imp _ _ xs (λ y h e. h e (==_refl (f y)))
        (All-diag
          (λ b y. any (λ x. (f x == f b) && p x) xs ≡ true → (f y == f b) ≡ true → p y ≡ true) xs
          each_key)
    where
      each_key :
          (b : A)
          → All
              (λ y. any (λ x. (f x == f b) && p x) xs ≡ true → (f y == f b) ≡ true → p y ≡ true)
              xs
      each_key b = elim (Bool-cases (any (λ x. (f x == f b) && p x) xs)) [
        | inl e ↦ All-imp _ _ xs (λ y h _. h) (unique-only f p (f b) xs u e)
        | inr e ↦ All-all _ xs (λ y e'. absurd (ground (arith, e, e')))
      ]

  -- the element that `first` finds
  pub first-any :
      (p q : A → Bool) (a : A) (xs : List A)
      → first p xs ≡ some a
      → q a ≡ true
      → any (λ x. q x && p x) xs ≡ true
  first-any p q a [] e h = absurd cc
  first-any p q a (x ∷ xs) e h = elim (Bool-cases (p x)) [
    | inl t ↦
        let found : some x ≡ some a = ap (λ c. if c then some x else first p xs) (sym t) ∙ e in
        let same : x ≡ a = ap (λ o. elim o [ none ↦ x | some y ↦ y ]) found in
        let passes : q x ≡ true = ap q same ∙ h in ground (arith, passes, t)
    | inr t ↦
        let found : first p xs ≡ some a = ap (λ c. if c then some x else first p xs) (sym t) ∙ e in
        let rest = first-any p q a xs found h in ground (arith, rest)
  ]

  pub first-passes : (p : A → Bool) (a : A) (xs : List A) → first p xs ≡ some a → p a ≡ true
  first-passes p a [] e = absurd cc
  first-passes p a (x ∷ xs) e = elim (Bool-cases (p x)) [
    | inl t ↦
        let found : some x ≡ some a = ap (λ c. if c then some x else first p xs) (sym t) ∙ e in
        let same : x ≡ a = ap (λ o. elim o [ none ↦ x | some y ↦ y ]) found in ap p (sym same) ∙ t
    | inr t ↦ first-passes p a xs (ap (λ c. if c then some x else first p xs) (sym t) ∙ e)
  ]

  pub All-first {κ} :
      (P : A → Type κ) (p : A → Bool) (a : A) (xs : List A) → All P xs → first p xs ≡ some a → P a
  All-first P p a [] h e = absurd cc
  All-first P p a (x ∷ xs) h e = elim (Bool-cases (p x)) [
    | inl t ↦
        let found : some x ≡ some a = ap (λ c. if c then some x else first p xs) (sym t) ∙ e in
        let same : x ≡ a = ap (λ o. elim o [ none ↦ x | some y ↦ y ]) found in subst P same h.0
    | inr t ↦ All-first P p a xs h.1 (ap (λ c. if c then some x else first p xs) (sym t) ∙ e)
  ]

  pub any-none_passes : (p : A → Bool) (xs : List A) → All (λ x. p x ≡ false) xs → any p xs ≡ false
  any-none_passes p [] h = refl
  any-none_passes p (x ∷ xs) h = let rest = any-none_passes p xs h.1 in ground (arith, h.0, rest)

  pub keep-none_passes : (p : A → Bool) (xs : List A) → All (λ x. p x ≡ false) xs → keep p xs ≡ []
  keep-none_passes p [] h = refl
  keep-none_passes p (x ∷ xs) h = rw (h.0) (keep-none_passes p xs h.1)

  pub elem-map_kept :
      (f : A → ℕ) (q : A → Bool) (v : ℕ) (xs : List A)
      → any (λ x. (f x == v) && q x) xs ≡ true
      → elem v (map f (keep q xs)) ≡ true
  elem-map_kept f q v [] h = h
  elem-map_kept f q v (x ∷ xs) h = elim (Bool-cases (q x)) [
    | inl t ↦ rw t (elim (Bool-cases (f x == v)) [
      | inl e ↦ ground (arith, e)
      | inr e ↦ let rest = elem-map_kept f q v xs (ground (arith, h, e)) in ground (arith, rest)
    ])
    | inr t ↦ rw t (elem-map_kept f q v xs (ground (arith, h, t)))
  ]
