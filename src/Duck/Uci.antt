-- ===== src/Duck/Uci.antt =====
-- `uci` and `from_uci` of `DuckTurn`, cope/variants/duck.py. `chess.square_name` and
-- `chess.parse_square` are parameters. A text is matched character by character, as the regular
-- expression does, which needs no backtracking.
pub mod RoundTrip
use Prim.Native.Char.{Char, code}
use Prim.Native.String.{[], ◌∷◌}
use cope_chess.Prelude.{
  ℕ, Option, none, some, Bool, true, false, not, ◌&&◌, ◌||◌, ◌==◌, if◌then◌else◌, leb, String, ◌+s◌,
  ◌=s◌, is_none,
}
use cope_chess.Exec.{Result, ok, err}
use cope_chess.Duck.Board.{Kind, pawn, knight, bishop, rook, queen, king, DuckTurn}

-- [a-h] and [1-8]
abbrev pub is_file : Char → Bool
is_file c = leb 97 (code c) && leb (code c) 104

abbrev pub is_rank : Char → Bool
is_rank c = leb 49 (code c) && leb (code c) 56

-- what a group matched, and the rest of the text
abbrev pub Match : Type 0 → Type 0
Match A = Option (A × String)

-- ([a-h][1-8])
unfoldable pub match_square : String → Match String
match_square (f ∷ r ∷ rest) = if is_file f && is_rank r then some (f ∷ r ∷ [], rest) else none
match_square _ = none

-- `match[3].lower()` of ([nbrqNBRQ]?)
unfoldable pub promotion_of : ℕ → Option Kind
promotion_of c =
    if c == 110 || c == 78
    then some knight
    else if c == 98 || c == 66
    then some bishop
    else if c == 114 || c == 82
    then some rook
    else if c == 113 || c == 81
    then some queen
    else none

unfoldable pub match_promotion : String → Option Kind × String
unfolding promotion_of
match_promotion [] = (none, [])
match_promotion (c ∷ rest) = elim (promotion_of (code c)) [
  | none ↦ (none, c ∷ rest)
  | some k ↦ (some k, rest)
]

abbrev pub and_then {ℓ κ} : {A : Type ℓ} {B : Type κ} → Option A → (A → Option B) → Option B
and_then none f = none
and_then (some a) f = f a

abbrev pub at_end : {A : Type 0} → Match A → Option A
at_end none = none
at_end (some (a, [])) = some a
at_end (some (a, c ∷ s)) = none

-- (?:,([a-h][1-8])([a-h][1-8]))? at the end of the text
unfoldable pub match_duck : String → Option (Option (String × String))
unfolding match_square
match_duck [] = some none
match_duck (c ∷ rest) =
    if code c == 44
    then and_then (match_square rest)
        (λ m. and_then (at_end (match_square m.1)) (λ duck. some (some (m.0, duck))))
    else none

-- the groups 1 to 5
abbrev pub Groups : Type 0
Groups = String × (String × (Option Kind × Option (String × String)))

unfoldable pub match_turn : String → Option Groups
unfolding match_square match_promotion match_duck
match_turn text = and_then (match_square text) (λ source.
    and_then (match_square source.1) (λ target.
      let (promotion, rest) = match_promotion target.1 in
      and_then (match_duck rest) (λ duck. some (source.0, (target.0, (promotion, duck))))))

-- match[4] is not None and match[4] != match[2]
abbrev pub misplaced : Option (String × String) → String → Bool
misplaced none target = false
misplaced (some (again, duck)) target = not (again =s target)

abbrev pub letter : Option Kind → String
letter none = ""
letter (some pawn) = "p"
letter (some knight) = "n"
letter (some bishop) = "b"
letter (some rook) = "r"
letter (some queen) = "q"
letter (some king) = "k"

pub data UciError : Type 0 where
  malformed_duck_turn : UciError

module _ (parse_square : String → ℕ) where
  abbrev pub duck_of : Option (String × String) → Option ℕ
  duck_of none = none
  duck_of (some (again, duck)) = some (parse_square duck)

  unfoldable pub turn_of : Option Groups → Result UciError DuckTurn
  turn_of none = err malformed_duck_turn
  turn_of (some (source, (target, (promotion, duck)))) =
      if source =s target || misplaced duck target
      then err malformed_duck_turn
      else ok (record {
        from_square = parse_square source;
        to_square = parse_square target;
        promotion = promotion;
        duck_square = duck_of duck;
      })

  unfoldable pub from_uci : String → Result UciError DuckTurn
  unfolding turn_of match_turn
  from_uci text = turn_of (match_turn text)

module _ (square_name : ℕ → String) where
  abbrev pub duck_text : String → Option ℕ → String
  duck_text destination none = ""
  duck_text destination (some duck) = "," +s (destination +s square_name duck)

  unfoldable pub uci : DuckTurn → String
  uci t =
      square_name t.from_square
      +s (square_name t.to_square
          +s (letter t.promotion +s duck_text (square_name t.to_square) t.duck_square))
