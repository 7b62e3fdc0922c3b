-- ===== src/Scheduler/Swiss/Pairing/Complete.antt =====
-- What `_swiss_pairings` of cope/runner/scheduler.py finds for an even number of players.
use mathlib.Core.List.{Perm}
use cope_chess.Prelude.{
  ℕ, zero, suc, ◌+◌, ◌≤◌, List, [], ◌∷◌, Option, none, some, Bool, true, false, not, ◌&&◌, ◌≡◌, ◌≢◌,
  ◌⊎◌, inl, inr, refl, ◌∙◌, arith, All, Bool-cases, Option-cases, elem, Unique, dropping,
  dropping-Unique, dropping-perm, any-sort_by, ◌==◌, length, perm_length,
}
use cope_chess.Scheduler.RoundRobin.{Pairing}
use cope_chess.Scheduler.RoundRobin.Facing.{flat}
use cope_chess.Scheduler.Swiss.Pairing.{
  Opponents, have_met, candidates, try_candidates, pair, or_else, index_of, swiss_pairings,
}
use cope_chess.Scheduler.Swiss.Pairing.Sound.{Fresh, pair-IsSound}

-- Everybody can be paired: the first with a partner, and the others without him likewise. Unless
-- rematches are allowed, the partners have not met.
pub data Matching (opponents : Opponents) (allow : Bool) : List ℕ → Type 0 where
  done : Matching opponents allow []
  match_first :
      (a b : ℕ) (others : List ℕ)
      → elem b others ≡ true
      → (not allow && have_met opponents a b) ≡ false
      → Matching opponents allow (dropping b others)
      → Matching opponents allow (a ∷ others)

module _ (opponents : Opponents) where
  -- a partner who can be taken and leaves the rest a pairing makes the loop succeed
  try_candidates-finds :
      (pair_rest : List ℕ → Option (List Pairing)) (allow : Bool) (a b : ℕ) (others among : List ℕ)
      → elem b among ≡ true
      → (not allow && have_met opponents a b) ≡ false
      → pair_rest (dropping b others) ≢ none
      → try_candidates opponents pair_rest allow a others among ≢ none
  unfolding try_candidates
  try_candidates-finds pair_rest allow a b others [] there fresh works = λ e. cc
  try_candidates-finds pair_rest allow a b others (x ∷ more) there fresh works =
      elim (Bool-cases (b == x)) [
        | inl same ↦
            let e : x ≡ b = ground arith in
            elim (Option-cases (pair_rest (dropping b others))) [
              | inl failed ↦ absurd (works failed)
              | inr found ↦ rw (e, fresh, found.1) (λ e. cc)
            ]
        | inr ne ↦
            let further =
              try_candidates-finds pair_rest allow a b others more (ground arith) fresh works in
            elim (Bool-cases (not allow && have_met opponents a x)) [
              | inl met ↦ rw met further
              | inr unmet ↦ elim (Option-cases (pair_rest (dropping x others))) [
                | inl failed ↦ rw (unmet, failed) further
                | inr found ↦ rw (unmet, found.1) (λ e. cc)
              ]
            ]
      ]

length-dropping : (b : ℕ) (xs : List ℕ) → length (dropping b xs) ≤ length xs
length-dropping b [] = omega arith
length-dropping b (x ∷ xs) = ground (arith, length-dropping b xs)

module _ (opponents : Opponents) (points rank : ℕ → ℕ) where
  pub pair-IsComplete :
      (fuel : ℕ) (allow : Bool) (remaining : List ℕ)
      → length remaining ≤ fuel
      → Matching opponents allow remaining
      → pair opponents points rank fuel allow remaining ≢ none
  unfolding pair candidates
  pair-IsComplete fuel allow [] h m = λ e. ground arith
  pair-IsComplete zero allow (a ∷ others) h m = absurd (omega arith)
  pair-IsComplete (suc fuel) allow (a ∷ others) h (match_first _ b _ there fresh rest) =
      try_candidates-finds opponents (pair opponents points rank fuel allow) allow a b others
        (candidates opponents points rank a others) (any-sort_by _ (λ x. b == x) others ∙ there)
        fresh
        (pair-IsComplete fuel allow (dropping b others) (omega (arith, length-dropping b others))
          rest)

-- an even number of players has a matching where rematches are allowed
even-Matching :
    (opponents : Opponents) (h : ℕ) (players : List ℕ)
    → length players ≡ h + h
    → Unique players
    → Matching opponents true players
even-Matching opponents zero [] e u = done
even-Matching opponents zero (x ∷ xs) e u = absurd (omega arith)
even-Matching opponents (suc h) [] e u = absurd (omega arith)
even-Matching opponents (suc h) (x ∷ []) e u = absurd (omega arith)
even-Matching opponents (suc h) (x ∷ y ∷ ys) e u =
    let there : elem y (y ∷ ys) ≡ true = ground arith in
    match_first x y (y ∷ ys) there refl (
      even-Matching opponents h (dropping y (y ∷ ys))
        (omega (arith, perm_length (dropping-perm y (y ∷ ys) u.1 there)))
        (dropping-Unique y (y ∷ ys) u.1))

-- what holds of a first result and of the alternative holds of `first or alternative`
or_else_rule {ℓ} :
    (P : List Pairing → Type ℓ) (o : Option (List Pairing)) (otherwise : List Pairing)
    → ((ps : List Pairing) → o ≡ some ps → P ps)
    → ((o ≡ none) ⊎ (o ≡ some []) → P otherwise)
    → P (or_else o otherwise)
unfolding or_else
or_else_rule P none otherwise found other = other (inl refl)
or_else_rule P (some []) otherwise found other = other (inr refl)
or_else_rule P (some (p ∷ ps)) otherwise found other = found (p ∷ ps) refl

-- A Swiss round pairs an even number of different players completely: each is in exactly one
-- pairing.
pub swiss_pairings-perm :
    (ranked : List ℕ) (h : ℕ) (points : ℕ → ℕ) (opponents : Opponents)
    → length ranked ≡ h + h
    → Unique ranked
    → Perm (flat (swiss_pairings ranked points opponents)) ranked
unfolding swiss_pairings
swiss_pairings-perm ranked h points opponents e u =
    let run = pair opponents points (index_of ranked) (length ranked) in
    let P = λ (ps : List Pairing). Perm (flat ps) ranked in
    let sound = λ (allow : Bool) (ps : List Pairing) (q : run allow ranked ≡ some ps).
      (pair-IsSound opponents points (index_of ranked) (length ranked) allow ranked ps u q).0 in
    let complete =
      pair-IsComplete opponents points (index_of ranked) (length ranked) true ranked (omega arith)
        (even-Matching opponents h ranked e u) in
    or_else_rule P (run false ranked) _ (sound false) (λ _.
      or_else_rule P (run true ranked) [] (sound true)
        (λ o. elim o [ inl failed ↦ absurd (complete failed) | inr empty ↦ sound true [] empty ]))

-- If some pairing of the different players has no rematch, the one that is returned has none.
pub swiss_pairings-Fresh :
    (ranked : List ℕ) (points : ℕ → ℕ) (opponents : Opponents)
    → Unique ranked
    → Matching opponents false ranked
    → All (Fresh opponents) (swiss_pairings ranked points opponents)
unfolding swiss_pairings
swiss_pairings-Fresh [] points opponents u m = unfold pair or_else in tt
swiss_pairings-Fresh (a ∷ others) points opponents u m =
    let ranked = a ∷ others in
    let run = pair opponents points (index_of ranked) (length ranked) in
    let sound = λ (ps : List Pairing) (q : run false ranked ≡ some ps).
      pair-IsSound opponents points (index_of ranked) (length ranked) false ranked ps u q in
    let complete =
      pair-IsComplete opponents points (index_of ranked) (length ranked) false ranked (omega arith)
        m in
    or_else_rule (All (Fresh opponents)) (run false ranked) _ (λ ps q. (sound ps q).1)
      (λ o. elim o [
        | inl failed ↦ absurd (complete failed)
        | inr empty ↦ absurd (unfold flat in omega (arith, perm_length (sound [] empty).0))
      ])
