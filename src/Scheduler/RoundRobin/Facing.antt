-- ===== src/Scheduler/RoundRobin/Facing.antt =====
-- The two ends of a round of the circle method, `_round_robin_pairings` of
-- cope/runner/scheduler.py.
use mathlib.Core.List.{Perm, filter_map, filter_map-append, perm_append_singleton, perm_append_comm}
use mathlib.Core.List.Perm
use cope_chess.Prelude.{
  ℕ, zero, suc, ◌+◌, ◌-◌, ◌/◌, ◌%◌, ◌≤◌, List, [], ◌∷◌, ◌++◌, Option, none, some, Bool, ◌≡◌, refl,
  ap, ◌∙◌, sym, arith, length, get_or, take, drop, range, ◌==◌, range_from, append_assoc,
  perm_of_eq, take-suc, drop_get, get_or-drop, length-drop, take_all, take-append-drop, true, false,
  length-append,
}
use cope_chess.Scheduler.RoundRobin.{
  Pairing, last_or, all_but_last, rotate, pair_up, pair_at, pair_all, round_pairings,
}

module _ {ℓ} {A : Type ℓ} where
  pub last-perm :
      (d : A) (x : A) (xs : List A) → Perm (last_or d (x ∷ xs) ∷ all_but_last (x ∷ xs)) (x ∷ xs)
  unfolding last_or all_but_last
  last-perm d x [] = Perm.refl _
  last-perm d x (y ∷ ys) = Perm.trans (Perm.swap _ _ _) (Perm.cons x (last-perm x y ys))

  -- the rotation of the circle method loses and doubles nobody
  pub rotate-perm : (x y : A) (ys : List A) → Perm (rotate (x ∷ y ∷ ys)) (x ∷ y ∷ ys)
  unfolding rotate
  rotate-perm x y ys = Perm.cons x (last-perm x y ys)

-- the players of a list of pairings
unfoldable pub flat : List Pairing → List ℕ
flat [] = []
flat ((a, b) ∷ ps) = a ∷ b ∷ flat ps

pub flat-append : (ps qs : List Pairing) → flat (ps ++ qs) ≡ flat ps ++ flat qs
unfolding flat
flat-append [] qs = refl
flat-append ((a, b) ∷ ps) qs = ap (λ l. a ∷ b ∷ l) (flat-append ps qs)

-- the participants in a list of seats
unfoldable pub values : List (Option ℕ) → List ℕ
values = filter_map (λ o. o)

-- who sits opposite the empty seat
unfoldable pub idle : Option ℕ → Option ℕ → List ℕ
idle none none = []
idle (some a) none = a ∷ []
idle none (some b) = b ∷ []
idle (some a) (some b) = []

pair_up-perm :
    (even : Bool) (a b : Option ℕ)
    → Perm (flat (pair_up even a b) ++ idle a b) (values (a ∷ b ∷ []))
unfolding flat pair_up idle values filter_map
pair_up-perm even none none = Perm.refl _
pair_up-perm even (some a) none = Perm.refl _
pair_up-perm even none (some b) = Perm.refl _
pair_up-perm true (some a) (some b) = Perm.refl _
pair_up-perm false (some a) (some b) = Perm.swap _ _ _

-- the seats that a round looks at, and the players among them that have no opponent
unfoldable pub opposite : List (Option ℕ) → ℕ → Option ℕ
opposite players i = get_or players (length players - 1 - i) none

unfoldable pub facing : List (Option ℕ) → List ℕ → List (Option ℕ)
facing players [] = []
facing players (i ∷ is) = get_or players i none ∷ opposite players i ∷ facing players is

unfoldable pub idle_all : List (Option ℕ) → List ℕ → List ℕ
idle_all players [] = []
idle_all players (i ∷ is) = idle (get_or players i none) (opposite players i) ++ idle_all players is

-- regrouping for the induction over the pairs
middle_swap {ℓ} :
    {A : Type ℓ} (a b c d : List A) → Perm ((a ++ b) ++ (c ++ d)) ((a ++ c) ++ (b ++ d))
middle_swap a b c d = Perm.trans (perm_of_eq (append_assoc a b (c ++ d))) (
    Perm.trans
      (Perm.append_left a (
        Perm.trans (perm_of_eq (sym (append_assoc b c d))) (
          Perm.trans (Perm.append_right d (perm_append_comm b c))
            (perm_of_eq (append_assoc c b d)))))
      (perm_of_eq (sym (append_assoc a c (b ++ d)))))

pair_all-perm :
    (players : List (Option ℕ)) (round_index : ℕ) (is : List ℕ)
    → Perm
        (flat (pair_all players round_index is) ++ idle_all players is)
        (values (facing players is))
unfolding pair_all idle_all facing opposite pair_at flat values filter_map
pair_all-perm players round_index [] = Perm.refl _
pair_all-perm players round_index (i ∷ is) =
    let a = get_or players i none in
    let b = opposite players i in
    let ps = pair_at players round_index i in
    let rest = pair_all players round_index is in
    rw flat-append (
      Perm.trans (middle_swap (flat ps) (flat rest) (idle a b) (idle_all players is)) (
        Perm.trans
          (Perm.append (pair_up-perm ((round_index + i) % 2 == 0) a b)
            (pair_all-perm players round_index is))
          (perm_of_eq (sym (filter_map-append (λ o. o) (a ∷ b ∷ []) (facing players is))))))

-- the seats from `s` on, and as many from the other end
module _ (players : List (Option ℕ)) (k s : ℕ) (h : s + suc k ≤ length players) where
  low_seats : take (suc k) (drop s players) ≡ get_or players s none ∷ take k (drop (suc s) players)
  low_seats = rw (drop_get none s players (omega arith))

  high_seats :
      take (suc k) (drop (length players - s - suc k) players)
      ≡ take k (drop (length players - suc s - k) players) ++ opposite players s ∷ []
  unfolding opposite
  high_seats =
      let m = length players - s - suc k in
      let same : m ≡ length players - suc s - k = omega arith in
      let last : m + k ≡ length players - 1 - s = omega arith in
      take-suc none k (drop m players) (omega (arith, length-drop m players))
      ∙ ap (λ l. take k (drop m players) ++ l ∷ [])
          (get_or-drop none m k players ∙ ap (λ j. get_or players j none) last)
      ∙ ap (λ j. take k (drop j players) ++ get_or players (length players - 1 - s) none ∷ []) same

-- a round of `2 * h` seats looks at every seat once
facing-perm :
    (players : List (Option ℕ)) (k s : ℕ)
    → s + k ≤ length players
    → Perm
        (facing players (range_from s k))
        (take k (drop s players) ++ take k (drop (length players - s - k) players))
unfolding facing
facing-perm players zero s h = Perm.refl _
facing-perm players (suc k) s h =
    let b = opposite players s in
    let low = take k (drop (suc s) players) in
    let high = take k (drop (length players - suc s - k) players) in
    rw (low_seats players k s h, high_seats players k s h)
      (Perm.cons _ (
        Perm.trans (Perm.cons b (facing-perm players k (suc s) (omega arith))) (
          Perm.trans (Perm.symm (perm_append_singleton b (low ++ high)))
            (perm_of_eq (append_assoc low high (b ∷ []))))))

-- all of them, where their number is even
pub facing_all-perm :
    (players : List (Option ℕ)) (h : ℕ)
    → length players ≡ h + h
    → Perm (facing players (range h)) players
facing_all-perm players h e =
    let half : length players - 0 - h ≡ h = omega arith in
    Perm.trans (facing-perm players h 0 (omega arith)) (
      perm_of_eq (
        ap (λ j. take h players ++ take h (drop j players)) half
        ∙ ap (λ l. take h players ++ l)
            (take_all h (drop h players) (omega (arith, length-drop h players)))
        ∙ take-append-drop h players))

-- a round of an even number of seats
pub round_pairings-perm :
    (players : List (Option ℕ)) (round_index h : ℕ)
    → length players ≡ h + h
    → Perm
        (flat (round_pairings players round_index) ++ idle_all players (range h))
        (values players)
unfolding round_pairings values
round_pairings-perm players round_index h e =
    let half : length players / 2 ≡ h = omega arith in
    rw half (
      Perm.trans (pair_all-perm players round_index (range h))
        (Perm.filter_map (λ o. o) (facing_all-perm players h e)))

pub length-flat : (ps : List Pairing) → length (flat ps) ≡ length ps + length ps
unfolding flat
length-flat [] = refl
length-flat ((a, b) ∷ ps) = omega (arith, length-flat ps)

-- an idle player needs an empty seat
length-idle :
    (a b : Option ℕ) (l : List (Option ℕ))
    → length (idle a b) + length (values (a ∷ b ∷ l)) ≤ length (values l) + 2
unfolding idle values filter_map
length-idle none none l = omega arith
length-idle none (some b) l = omega arith
length-idle (some a) none l = omega arith
length-idle (some a) (some b) l = omega arith

pub length-idle_all :
    (players : List (Option ℕ)) (is : List ℕ)
    → length (idle_all players is) + length (values (facing players is)) ≤ length is + length is
unfolding idle_all facing values filter_map
length-idle_all players [] = omega arith
length-idle_all players (i ∷ is) = omega (
  arith,
  length-append (idle (get_or players i none) (opposite players i)) (idle_all players is),
  length-idle (get_or players i none) (opposite players i) (facing players is),
  length-idle_all players is,
)
