-- ===== src/Scheduler/Swiss/Round/Everyone.antt =====
-- The pairings and the bye of a Swiss round, `generate_swiss_round` of cope/runner/scheduler.py.
use mathlib.Core.List.{Perm, perm_middle, reverse_perm}
use mathlib.Core.List.Perm
use cope_chess.Prelude.{
  ℕ, ◌+◌, ◌/◌, ◌%◌, ◌≤◌, List, [], ◌∷◌, ◌++◌, Option, none, some, Bool, true, false, not, ◌≡◌, inl,
  inr, refl, ap, ◌∙◌, sym, arith, Bool-cases, Option-cases, elem, any, first, Unique, sort_by-perm,
  sort_by-Unique, ◌==◌, ==_iff, ==_refl, length, take, drop, perm_length, perm_of_eq, length-drop,
  length-take, length-append, any_perm, take-append-drop, reverse, if◌then◌else◌,
}
use cope_chess.Tournament.Records.{GameRecord, MatchRecord}
use cope_chess.Scheduler.RoundRobin.{last_or}
use cope_chess.Scheduler.RoundRobin.Facing.{flat}
use cope_chess.Scheduler.Swiss.Points.{Points}
use cope_chess.Scheduler.Swiss.Pairing.{opponent_history}
use cope_chess.Scheduler.Swiss.Pairing.Complete.{swiss_pairings-perm}
use cope_chess.Scheduler.Swiss.Round.{
  swiss_ranking, previous_byes, remove, bye_of, without_bye, zip, round_pairs, points_at,
}

remove-perm : (a : ℕ) (xs : List ℕ) → elem a xs ≡ true → Perm (a ∷ remove a xs) xs
unfolding remove
remove-perm a [] h = cc
remove-perm a (x ∷ xs) h = elim (Bool-cases (x == a)) [
  | inl same ↦ rw same (perm_of_eq (ap (λ y. y ∷ xs) (sym ((==_iff x a).0 same))))
  | inr ne ↦ rw ne (Perm.trans (Perm.swap _ _ _) (Perm.cons x (remove-perm a xs (ground arith))))
]

elem-remove : (b a : ℕ) (xs : List ℕ) → elem b xs ≡ false → elem b (remove a xs) ≡ false
unfolding remove
elem-remove b a [] h = refl
elem-remove b a (x ∷ xs) h = ground (arith, elem-remove b a xs)

remove-Unique : (a : ℕ) (xs : List ℕ) → Unique xs → Unique (remove a xs)
unfolding remove
remove-Unique a [] u = tt
remove-Unique a (x ∷ xs) u = elim (Bool-cases (x == a)) [
  | inl same ↦ rw same u.1
  | inr ne ↦ rw ne (elem-remove x a xs u.0, remove-Unique a xs u.1)
]

-- the two halves of an even list, paired off
zip-perm : (xs ys : List ℕ) → length xs ≡ length ys → Perm (flat (zip xs ys)) (xs ++ ys)
unfolding zip flat
zip-perm [] [] e = Perm.refl _
zip-perm [] (y ∷ ys) e = absurd (omega arith)
zip-perm (x ∷ xs) [] e = absurd (omega arith)
zip-perm (x ∷ xs) (y ∷ ys) e =
    Perm.cons x
      (Perm.trans (Perm.cons y (zip-perm xs ys (omega arith))) (Perm.symm (perm_middle xs ys)))

elem-last_or : (d x : ℕ) (xs : List ℕ) → elem (last_or d (x ∷ xs)) (x ∷ xs) ≡ true
unfolding last_or
elem-last_or d x [] = ground (arith, ==_refl x)
elem-last_or d x (y ∷ ys) = ground (arith, elem-last_or x y ys)

-- what `first` finds is in the list and passes the test
first-some :
    (p : ℕ → Bool) (xs : List ℕ) (a : ℕ) → first p xs ≡ some a → (elem a xs ≡ true) × (p a ≡ true)
first-some p [] a h = cc
first-some p (x ∷ xs) a h = elim (Bool-cases (p x)) [
  | inl passes ↦
      let same : x ≡ a = ground arith in (ground (arith, ==_refl a, same), rw (← same) passes)
  | inr fails ↦ let rest = first-some p xs a (rw fails at h) in (ground (arith, rest.0), rest.1)
]

first-none : (p : ℕ → Bool) (xs : List ℕ) → first p xs ≡ none → any p xs ≡ false
first-none p [] h = refl
first-none p (x ∷ xs) h = elim (Bool-cases (p x)) [
  | inl passes ↦ cc (h, ap (λ b. if b then some x else first p xs) passes)
  | inr fails ↦ rw fails (first-none p xs (rw fails at h))
]

elem_last : (ranked : List ℕ) → length ranked % 2 ≡ 1 → elem (last_or 0 ranked) ranked ≡ true
elem_last [] h = absurd (omega arith)
elem_last (x ∷ xs) h = elem-last_or 0 x xs

-- Of an odd number of players one sits out: a ranked one, and one without an earlier bye if there is
-- any.
pub bye_of-lem :
    (ranked : List ℕ) (matches : List MatchRecord)
    → length ranked % 2 ≡ 1
    → (e : ℕ) × (bye_of ranked matches ≡ some e)
      × (elem e ranked ≡ true)
      × (any (λ x. not (elem x (previous_byes matches))) ranked ≡ true
          → elem e (previous_byes matches) ≡ false)
unfolding bye_of
bye_of-lem ranked matches odd =
    let fair = λ (x : ℕ). not (elem x (previous_byes matches)) in
    let test : (length ranked % 2 == 1) ≡ true = ground arith in
    elim (Option-cases (first fair (reverse ranked))) [
      | inl nobody ↦ (
        last_or 0 ranked,
        rw (test, nobody),
        elem_last ranked odd,
        λ some_fair. cc (
          some_fair,
          any_perm fair (reverse_perm ranked),
          first-none fair (reverse ranked) nobody,
        ),
      )
      | inr (e, found) ↦
          let at_e = first-some fair (reverse ranked) e found in
          (
            e,
            rw (test, found),
            sym (any_perm (λ x. e == x) (reverse_perm ranked)) ∙ at_e.0,
            λ _. ground (arith, at_e.1),
          )
    ]

-- the players that are paired in a round, and who sits out
abbrev pub bye_list : Option ℕ → List ℕ
bye_list none = []
bye_list (some e) = e ∷ []

record Split (ranked : List ℕ) (bye : Option ℕ) : Type 0 where
  pub half : ℕ
  pub even : length (without_bye bye ranked) ≡ half + half
  pub distinct : Unique (without_bye bye ranked)
  pub whole : Perm (bye_list bye ++ without_bye bye ranked) ranked

bye-Split :
    (ranked : List ℕ) (matches : List MatchRecord)
    → Unique ranked
    → Split ranked (bye_of ranked matches)
unfolding without_bye
bye-Split ranked matches u = elim (Bool-cases (length ranked % 2 == 1)) [
  | inl odd ↦
      let (e, chosen, there, _) = bye_of-lem ranked matches (ground arith) in
      let whole = remove-perm e ranked there in
      rw chosen (record {
        half = length (remove e ranked) / 2;
        even = ground (arith, perm_length whole);
        distinct = remove-Unique e ranked u;
        whole = whole;
      })
  | inr even ↦
      let nobody : bye_of ranked matches ≡ none = unfold bye_of in rw even in
      rw nobody (record {
        half = length ranked / 2;
        even = ground arith;
        distinct = u;
        whole = Perm.refl _;
      })
]

round_pairs-perm :
    (round_number half : ℕ) (players : List ℕ) (points : Points) (games : List GameRecord)
    → length players ≡ half + half
    → Unique players
    → Perm (flat (round_pairs round_number players points games)) players
unfolding round_pairs
round_pairs-perm round_number half players points games e u =
    elim (Bool-cases (round_number == 1)) [
      | inl opening ↦
          let m = length players / 2 in
          rw opening (
            Perm.trans
              (zip-perm (take m players) (drop m players)
                (omega (arith, length-drop m players, length-take m players)))
              (perm_of_eq (take-append-drop m players)))
      | inr later ↦
          rw later
            (swiss_pairings-perm players half (points_at points) (opponent_history games) e u)
    ]

ranking-perm :
    (participants : List ℕ) (points buchholz : Points)
    → Perm (swiss_ranking participants points buchholz) participants
unfolding swiss_ranking
ranking-perm participants points buchholz = sort_by-perm _ participants

ranking-Unique :
    (participants : List ℕ) (points buchholz : Points)
    → Unique participants
    → Unique (swiss_ranking participants points buchholz)
unfolding swiss_ranking
ranking-Unique participants points buchholz u = sort_by-Unique _ participants u

length-bye_list : (bye : Option ℕ) → length (bye_list bye) ≤ 1
length-bye_list none = omega arith
length-bye_list (some e) = omega arith

-- In every Swiss round of different participants each of them either is in exactly one pairing or has
-- the bye, and there is a bye exactly when their number is odd.
pub swiss_round-everyone :
    (participants : List ℕ) (round_number : ℕ) (points buchholz : Points) (games : List GameRecord)
    (matches : List MatchRecord)
    → Unique participants
    → let ranked = swiss_ranking participants points buchholz in
      let bye = bye_of ranked matches in
      let pairings = round_pairs round_number (without_bye bye ranked) points games in
      Perm (bye_list bye ++ flat pairings) participants
      × (length (bye_list bye) ≡ length participants % 2)
swiss_round-everyone participants round_number points buchholz games matches u =
    let ranked = swiss_ranking participants points buchholz in
    let same = ranking-perm participants points buchholz in
    let s = bye-Split ranked matches (ranking-Unique participants points buchholz u) in
    let bye = bye_of ranked matches in
    let players = without_bye bye ranked in
    (
      Perm.trans
          (Perm.append_left (bye_list bye)
            (round_pairs-perm round_number s.half players points games s.even s.distinct))
          (Perm.trans s.whole same),
      omega (
        arith,
        length-bye_list bye,
        length-append (bye_list bye) players,
        s.even,
        perm_length s.whole,
        perm_length same,
      ),
    )
