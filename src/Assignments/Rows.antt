-- ===== src/Assignments/Rows.antt =====
-- Rows of tables that queries and updates find.
use cope_chess.Prelude.{
  ℕ, refl, ◌++◌, ◌++◌, List, [], ◌∷◌, some, none, Bool, true, false, not, ◌==◌, ==_iff,
  if◌then◌else◌, keep, map, any, elem, ◌≡◌, inl, inr, Bool-cases, All-imp, All-map, All-all, Unique,
  any-keep, any-none_passes, keep-none_passes, absent-all, first, sym, ap, ◌∙◌, arith, String,
  length, suc,
}
use cope_chess.Assignments.Records.{
  AssignmentRecord, AssignmentStatus, is_active, update_where, row_count,
}
use cope_chess.Assignments.Reset.{given_up}
use cope_chess.Assignments.Workers.{held_active}

-- of the rows with different ids one has the id that an assignment was found by
pub one_row :
    (q : AssignmentRecord → Bool) (id : ℕ) (a : AssignmentRecord) (xs : List AssignmentRecord)
    → Unique (map (λ b. b.id) xs)
    → first (λ b. b.id == id) xs ≡ some a
    → q a ≡ true
    → ((b : AssignmentRecord) → q b ≡ true → (b.id == id) ≡ true)
    → row_count q xs ≡ 1
unfolding row_count
one_row q id a [] u e h only = absurd cc
one_row q id a (x ∷ xs) u e h only = elim (Bool-cases (x.id == id)) [
  | inl t ↦
      let found : some x ≡ some a =
        ap (λ c. if c then some x else first (λ b. b.id == id) xs) (sym t) ∙ e in
      let passes : q x ≡ true = ap (λ o. q (elim o [ none ↦ x | some y ↦ y ])) found ∙ h in
      rw passes (
        ap (λ l. suc (length l))
          (keep-none_passes q xs (All-imp _ _ xs (other x t) (absent-all (λ b. b.id) x.id xs u.0))))
  | inr t ↦
      let fails : q x ≡ false = elim (Bool-cases (q x)) [
        | inl y ↦ absurd (let same = only x y in ground (arith, same, t))
        | inr n ↦ n
      ] in
      rw fails (
        one_row q id a xs u.1
          (ap (λ c. if c then some x else first (λ b. b.id == id) xs) (sym t) ∙ e) h only)
]
  where
    other :
        (x : AssignmentRecord)
        → (x.id == id) ≡ true
        → (b : AssignmentRecord) → (b.id == x.id) ≡ false
        → q b ≡ false
    other x t b ne = elim (Bool-cases (q b)) [
      | inl y ↦ absurd (let same = only b y in ground (arith, same, t, ne))
      | inr n ↦ n
    ]

-- rows of the game, among those that are kept
pub none_kept :
    {A : Type 0} (f : A → ℕ) (ids : List ℕ) (v : ℕ) (xs : List A)
    → elem v ids ≡ true
    → any (λ x. f x == v) (keep (λ x. not (elem (f x) ids)) xs) ≡ false
none_kept f ids v xs there =
    any-keep (λ x. f x == v) (λ x. not (elem (f x) ids)) xs
    ∙ any-none_passes _ xs (
        All-all _ xs (λ x. elim (Bool-cases (f x == v)) [
          | inl e ↦
              let gone : elem (f x) ids ≡ true =
                ap (λ w. elem w ids) ((==_iff (f x) v).0 e) ∙ there in
              ground (arith, gone)
          | inr e ↦ ground (arith, e)
        ]))

pub none_held_active :
    (worker_id : ℕ) (status : AssignmentStatus) (now : ℕ) (error : String)
    → (xs : List AssignmentRecord) → is_active status ≡ false
    → any
        (held_active worker_id)
        (update_where (held_active worker_id) (given_up status now error) xs)
      ≡ false
unfolding update_where given_up
none_held_active worker_id status now error xs over = any-none_passes (held_active worker_id) _ (
    All-map (λ _. Unit {0}) _ _ xs
      (λ a _. elim (Bool-cases (held_active worker_id a)) [
        | inl h ↦ rw h (ground (arith, over))
        | inr h ↦ rw h h
      ])
      (All-all _ xs (λ a. tt)))

-- the row that a query finds after an update of the rows that it looks for
pub first-updated :
    {A : Type 0} (t : A → Bool) (set : A → A) (xs : List A)
    → ((x : A) → t (set x) ≡ t x)
    → any t xs ≡ true
    → (x : A) × (first t (update_where t set xs) ≡ some (set x))
unfolding update_where
first-updated t set [] same h = absurd cc
first-updated t set (x ∷ xs) same h = elim (Bool-cases (t x)) [
  | inl e ↦ (x, rw (e, same x, e) refl)
  | inr e ↦
      let (y, found) = first-updated t set xs same (ground (arith, h, e)) in (y, rw (e, e) found)
]

pub first-appended :
    {A : Type 0} (t : A → Bool) (x : A) (xs : List A)
    → any t xs ≡ false
    → t x ≡ true
    → first t (xs ++ (x ∷ [])) ≡ some x
first-appended t x [] h e = rw e refl
first-appended t x (y ∷ ys) h e =
    let no : t y ≡ false = ground arith in rw no (first-appended t x ys (ground arith) e)
