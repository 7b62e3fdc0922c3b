-- ===== src/Scheduler/Swiss/Pairing/Sound.antt =====
-- What `_swiss_pairings` of cope/runner/scheduler.py returns.
use mathlib.Core.List.{Perm}
use mathlib.Core.List.Perm
use cope_chess.Prelude.{
  ℕ, zero, suc, List, [], ◌∷◌, Option, some, Bool, true, false, not, ◌&&◌, ◌≡◌, ◌⊎◌, inl, inr, refl,
  ◌∙◌, sym, arith, All, Bool-cases, Option-cases, elem, Unique, dropping, dropping-Unique,
  dropping-perm, any-sort_by, ◌==◌,
}
use cope_chess.Scheduler.RoundRobin.{Pairing}
use cope_chess.Scheduler.RoundRobin.Facing.{flat}
use cope_chess.Scheduler.Swiss.Pairing.{Opponents, have_met, candidates, try_candidates, pair}

fresh_of : (allow met : Bool) → (not allow && met) ≡ false → (allow ≡ true) ⊎ (met ≡ false)
fresh_of true met h = inl refl
fresh_of false met h = inr h

module _ (opponents : Opponents) where
  -- who was chosen, and how the rest was paired
  pub record Chosen (pair_rest : List ℕ → Option (List Pairing)) (allow : Bool) (a : ℕ)
      (others among : List ℕ) (ps : List Pairing) : Type 0 where
    pub second : ℕ
    pub rest : List Pairing
    pub is_candidate : elem second among ≡ true
    pub fresh : (allow ≡ true) ⊎ (have_met opponents a second ≡ false)
    pub paired : pair_rest (dropping second others) ≡ some rest
    pub result : ps ≡ (a, second) ∷ rest

  try_candidates-Chosen :
      (pair_rest : List ℕ → Option (List Pairing)) (allow : Bool) (a : ℕ) (others among : List ℕ)
      (ps : List Pairing)
      → try_candidates opponents pair_rest allow a others among ≡ some ps
      → Chosen pair_rest allow a others among ps
  unfolding try_candidates
  try_candidates-Chosen pair_rest allow a others [] ps h = cc
  try_candidates-Chosen pair_rest allow a others (b ∷ more) ps h =
      elim (Bool-cases (not allow && have_met opponents a b)) [
        | inl met ↦ later (try_candidates-Chosen pair_rest allow a others more ps (rw (met) at h))
        | inr fresh ↦ elim (Option-cases (pair_rest (dropping b others))) [
          | inl failed ↦
              later
                (try_candidates-Chosen pair_rest allow a others more ps (rw (fresh, failed) at h))
          | inr found ↦
              let h' : some ((a, b) ∷ found.0) ≡ some ps = rw (fresh, found.1) at h in
              record {
                second = b;
                rest = found.0;
                is_candidate = ground arith;
                fresh = fresh_of allow (have_met opponents a b) fresh;
                paired = found.1;
                result = cc;
              }
        ]
      ]
    where
      later :
          Chosen pair_rest allow a others more ps → Chosen pair_rest allow a others (b ∷ more) ps
      later c = record {
        second = c.second;
        rest = c.rest;
        is_candidate = ground (arith, c.is_candidate);
        fresh = c.fresh;
        paired = c.paired;
        result = c.result;
      }

-- two engines that have not played one another
abbrev pub Fresh : Opponents → Pairing → Type 0
Fresh opponents (a, b) = have_met opponents a b ≡ false

abbrev pub FreshUnless : Opponents → Bool → List Pairing → Type 0
FreshUnless opponents true ps = Unit
FreshUnless opponents false ps = All (Fresh opponents) ps

FreshUnless-nil : (opponents : Opponents) (allow : Bool) → FreshUnless opponents allow []
FreshUnless-nil opponents true = tt
FreshUnless-nil opponents false = tt

FreshUnless-cons :
    (opponents : Opponents) (allow : Bool) (a b : ℕ) (ps : List Pairing)
    → (allow ≡ true) ⊎ (have_met opponents a b ≡ false)
    → FreshUnless opponents allow ps
    → FreshUnless opponents allow ((a, b) ∷ ps)
FreshUnless-cons opponents true a b ps h rest = tt
FreshUnless-cons opponents false a b ps (inl h) rest = cc
FreshUnless-cons opponents false a b ps (inr h) rest = (h, rest)

module _ (opponents : Opponents) (points rank : ℕ → ℕ) where
  pub pair-IsSound :
      (fuel : ℕ) (allow : Bool) (remaining : List ℕ) (ps : List Pairing)
      → Unique remaining
      → pair opponents points rank fuel allow remaining ≡ some ps
      → Perm (flat ps) remaining × FreshUnless opponents allow ps
  unfolding pair flat candidates
  pair-IsSound fuel allow [] ps u h =
      let e : ps ≡ [] = ground arith in rw e (Perm.refl _, FreshUnless-nil opponents allow)
  pair-IsSound zero allow (a ∷ others) ps u h = cc
  pair-IsSound (suc fuel) allow (a ∷ others) ps u h =
      let among = candidates opponents points rank a others in
      let c =
        try_candidates-Chosen opponents (pair opponents points rank fuel allow) allow a others among
          ps h in
      let b = c.second in
      let there : elem b others ≡ true =
        sym (any-sort_by _ (λ x. b == x) others) ∙ c.is_candidate in
      let rest =
        pair-IsSound fuel allow (dropping b others) c.rest (dropping-Unique b others u.1)
          c.paired in
      rw c.result (
        Perm.cons a (Perm.trans (Perm.cons b rest.0) (dropping-perm b others u.1 there)),
        FreshUnless-cons opponents allow a b c.rest c.fresh rest.1,
      )
