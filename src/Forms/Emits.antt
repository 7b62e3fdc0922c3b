-- ===== src/Forms/Emits.antt =====
-- The errors that a check of cope/domains/forms/definition.py finds, and the fields that it
-- counts.
use cope_chess.Prelude.{
  ℕ, ◌+◌, List, [], ◌∷◌, ◌++◌, Bool, true, false, if◌then◌else◌, String, ◌≡◌, ◌≢◌, refl, All, arith,
}
use cope_chess.Forms.Compile.{Check, ErrorCode, fail, fail_if, fail_each, counted}

pub record Emits (f : Check → Check) (n : ℕ) (P : Type 0) : Type 0 where
  pub counts : (s : Check) → P → (f s).1 ≡ s.1 + n
  pub clean : (s : Check) → (f s).0 ≡ [] → (s.0 ≡ []) × P
  pub quiet : (s : Check) → s.0 ≡ [] → P → (f s).0 ≡ []

pub Emits-then :
    (f g : Check → Check) (n m : ℕ) (P Q : Type 0)
    → Emits f n P
    → Emits g m Q
    → Emits (λ s. g (f s)) (n + m) (P × Q)
Emits-then f g n m P Q ef eg = record {
  counts = λ s h. let a = ef.counts s h.0 in let b = eg.counts (f s) h.1 in omega (arith, a, b);
  clean = λ s e. let b = eg.clean (f s) e in let a = ef.clean s b.0 in (a.0, (a.1, b.1));
  quiet = λ s e h. eg.quiet (f s) (ef.quiet s e h.0) h.1;
}

pub Emits-iff :
    (f : Check → Check) (n m : ℕ) (P Q : Type 0)
    → n ≡ m
    → (P → Q)
    → (Q → P)
    → Emits f n P
    → Emits f m Q
Emits-iff f n m P Q same to from e = record {
  counts = λ s h. let c = e.counts s (from h) in omega (arith, c, same);
  clean = λ s h. let c = e.clean s h in (c.0, to c.1);
  quiet = λ s h q. e.quiet s h (from q);
}

pub Emits-if :
    (b : Bool) (f g : Check → Check) (n : ℕ) (P : Type 0)
    → (b ≡ true → Emits f n P)
    → (b ≡ false → Emits g n P)
    → Emits (λ s. if b then f s else g s) n P
Emits-if true f g n P hf hg = hf refl
Emits-if false f g n P hf hg = hg refl

pub Emits-id : Emits (λ s. s) 0 Unit
Emits-id = record { counts = λ s h. omega arith; clean = λ s e. (e, tt); quiet = λ s e h. e }

pub Emits-counted : Emits counted 1 Unit
unfolding counted
Emits-counted = record { counts = λ s h. omega arith; clean = λ s e. (e, tt); quiet = λ s e h. e }

not-snoc : {A : Type 0} (xs : List A) (x : A) → xs ++ (x ∷ []) ≢ []
not-snoc [] x h = cc
not-snoc (y ∷ ys) x h = cc

pub Emits-fail_if :
    (bad : Bool) (path : List String) (code : ErrorCode)
    → Emits (fail_if bad path code) 0 (bad ≡ false)
unfolding fail_if fail
Emits-fail_if true path code = record {
  counts = λ s h. absurd cc;
  clean = λ s e. absurd (not-snoc s.0 _ e);
  quiet = λ s e h. absurd cc;
}
Emits-fail_if false path code = record {
  counts = λ s h. omega arith;
  clean = λ s e. (e, refl);
  quiet = λ s e h. e;
}

abbrev pub Clean : Bool × ErrorCode → Type 0
Clean t = t.0 ≡ false

pub Emits-fail_each :
    (path : List String) (tests : List (Bool × ErrorCode))
    → Emits (fail_each path tests) 0 (All Clean tests)
unfolding fail_each
Emits-fail_each path [] = Emits-id
Emits-fail_each path ((bad, code) ∷ tests) =
    Emits-then (fail_if bad path code) (fail_each path tests) 0 0 (bad ≡ false) (All Clean tests)
      (Emits-fail_if bad path code) (Emits-fail_each path tests)
