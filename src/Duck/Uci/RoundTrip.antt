-- ===== src/Duck/Uci/RoundTrip.antt =====
-- `from_uci` of what `uci` writes, cope/variants/duck.py.
use Prim.Native.Char.{Char}
use Prim.Native.String.{[], ◌∷◌}
use text.Mathlib.TextEquality.{eq_iff}
use cope_chess.Prelude.{
  ℕ, ◌<◌, Option, none, some, Bool, true, false, ◌≡◌, ◌≢◌, refl, sym, ap, ◌∙◌, arith, String, ◌+s◌,
  ◌=s◌, Bool-cases, inl, inr,
}
use cope_chess.Exec.{ok}
use cope_chess.Duck.Board.{Kind, pawn, knight, bishop, rook, queen, king, DuckTurn}
use cope_chess.Duck.Uci.{
  is_file, is_rank, match_square, match_promotion, promotion_of, match_duck, match_turn, turn_of,
  from_uci, uci, letter, duck_text, misplaced, duck_of,
}

-- a text of a file's letter and a rank's digit
pub record IsName (name : String) : Type 0 where
  pub file : Char
  pub rank : Char
  pub spelled : name ≡ file ∷ rank ∷ []
  pub in_files : is_file file ≡ true
  pub in_ranks : is_rank rank ≡ true

match_square-name :
    (name rest : String) → IsName name → match_square (name +s rest) ≡ some (name, rest)
unfolding match_square
match_square-name name rest n =
    let whole : match_square ((n.file ∷ n.rank ∷ []) +s rest) ≡ some (n.file ∷ n.rank ∷ [], rest) =
      rw (n.in_files, n.in_ranks) refl in
    ap (λ s. match_square (s +s rest)) n.spelled ∙ whole ∙ ap (λ s. some (s, rest)) (sym n.spelled)

-- "" and a kind that a pawn is promoted to
abbrev pub is_promotion : Option Kind → Bool
is_promotion none = true
is_promotion (some knight) = true
is_promotion (some bishop) = true
is_promotion (some rook) = true
is_promotion (some queen) = true
is_promotion (some _) = false

match_promotion-letter :
    (square_name : ℕ → String) (promotion : Option Kind) (destination : String) (duck : Option ℕ)
    → is_promotion promotion ≡ true
    → match_promotion (letter promotion +s duck_text square_name destination duck)
      ≡ (promotion, duck_text square_name destination duck)
unfolding match_promotion promotion_of
match_promotion-letter square_name none destination none h = refl
match_promotion-letter square_name none destination (some d) h = refl
match_promotion-letter square_name (some knight) destination duck h = refl
match_promotion-letter square_name (some bishop) destination duck h = refl
match_promotion-letter square_name (some rook) destination duck h = refl
match_promotion-letter square_name (some queen) destination duck h = refl
match_promotion-letter square_name (some pawn) destination duck h = absurd cc
match_promotion-letter square_name (some king) destination duck h = absurd cc

match_square-end : (name : String) → IsName name → match_square name ≡ some (name, [])
unfolding match_square
match_square-end name n =
    ap match_square n.spelled
    ∙ rw (n.in_files, n.in_ranks) refl
    ∙ ap (λ s. some (s, [])) (sym n.spelled)

module _ (square_name : ℕ → String) (parse_square : String → ℕ)
    (names : (s : ℕ) → s < 64 → IsName (square_name s))
    (parses : (s : ℕ) → s < 64 → parse_square (square_name s) ≡ s) where
  -- the squares of a turn are on the board
  abbrev pub OnBoard : Option ℕ → Type 0
  OnBoard none = Unit
  OnBoard (some s) = s < 64

  abbrev groups : Option ℕ → String → Option (String × String)
  groups none target = none
  groups (some duck) target = some (target, square_name duck)

  match_duck-text :
      (target : String) (duck : Option ℕ)
      → IsName target
      → OnBoard duck
      → match_duck (duck_text square_name target duck) ≡ some (groups duck target)
  unfolding match_duck
  match_duck-text target none n h = refl
  match_duck-text target (some duck) n h =
      rw
        (
          match_square-name target (square_name duck) n,
          match_square-end (square_name duck) (names duck h),
        )
        refl

  names_differ : (a b : ℕ) → a < 64 → b < 64 → a ≢ b → (square_name a =s square_name b) ≡ false
  names_differ a b ha hb ne = elim (Bool-cases (square_name a =s square_name b)) [
    | inl e ↦ absurd (ne (sym (parses a ha) ∙ ap parse_square ((eq_iff _ _).0 e) ∙ parses b hb))
    | inr e ↦ e
  ]

  well_placed : (duck : Option ℕ) (target : String) → misplaced (groups duck target) target ≡ false
  well_placed none target = refl
  well_placed (some d) target = let same = (eq_iff target target).1 refl in ground (arith, same)

  same_duck :
      (duck : Option ℕ) (target : String)
      → OnBoard duck
      → duck_of parse_square (groups duck target) ≡ duck
  same_duck none target h = refl
  same_duck (some d) target h = ap (λ s. some s) (parses d h)

  matched :
      (t : DuckTurn)
      → t.from_square < 64
      → t.to_square < 64
      → is_promotion t.promotion ≡ true
      → OnBoard t.duck_square
      → match_turn (uci square_name t)
        ≡ some (
          square_name t.from_square,
          (square_name t.to_square, (t.promotion, groups t.duck_square (square_name t.to_square))),
        )
  unfolding match_turn uci
  matched t source target promotes duck =
      let to_name = names t.to_square target in
      let tail =
        letter t.promotion +s duck_text square_name (square_name t.to_square) t.duck_square in
      let first =
        match_square-name (square_name t.from_square) (square_name t.to_square +s tail)
          (names t.from_square source) in
      let second = match_square-name (square_name t.to_square) tail to_name in
      let third =
        match_promotion-letter square_name t.promotion (square_name t.to_square) t.duck_square
          promotes in
      let last = match_duck-text (square_name t.to_square) t.duck_square to_name duck in
      rw (first, second, third, last) refl

  -- The text of a turn between different squares of the board, with a duck on the board or
  -- none and a promotion to a knight, bishop, rook or queen or none, is read back as that
  -- turn, given that the names of squares are a letter from a to h and a digit from 1 to 8
  -- and are parsed as those squares.
  pub from_uci-uci :
      (t : DuckTurn)
      → t.from_square < 64
      → t.to_square < 64
      → t.from_square ≢ t.to_square
      → is_promotion t.promotion ≡ true
      → OnBoard t.duck_square
      → from_uci parse_square (uci square_name t) ≡ ok t
  unfolding from_uci turn_of
  from_uci-uci t source target different promotes duck =
      let read = matched t source target promotes duck in
      let apart = names_differ t.from_square t.to_square source target different in
      let placed = well_placed t.duck_square (square_name t.to_square) in
      let from_same = parses t.from_square source in
      let to_same = parses t.to_square target in
      let duck_same = same_duck t.duck_square (square_name t.to_square) duck in
      rw (read, apart, placed, from_same, to_same, duck_same) refl
