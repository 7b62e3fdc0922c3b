-- ===== src/Examples/Turns.antt =====
-- The names of squares, and the text of a turn.
use Prim.Native.Char.{code}
use Prim.Native.String.{[], ◌∷◌}
use cope_chess.Prelude.{
  ℕ, ◌+◌, ◌-◌, ◌*◌, ◌/◌, ◌%◌, ◌<◌, some, Bool, true, false, ◌&&◌, ◌==◌, ◌≡◌, refl, all,
  all_in-range, range_from, String, ◌+s◌, if◌then◌else◌, arith,
}
use cope_chess.Exec.{ok}
use cope_chess.Duck.Board.{DuckTurn, queen}
use cope_chess.Duck.Uci.{is_file, is_rank, from_uci, uci}
use cope_chess.Duck.Uci.RoundTrip.{IsName, from_uci-uci}

abbrev nth : String → ℕ → String
nth [] n = ""
nth (c ∷ s) n = let rest = nth s (n - 1) in if n == 0 then c ∷ [] else rest

abbrev square_name : ℕ → String
square_name s = nth "abcdefgh" (s % 8) +s nth "12345678" (s / 8)

abbrev parse_square : String → ℕ
parse_square (f ∷ r ∷ []) = (code r - 49) * 8 + (code f - 97)
parse_square _ = 0

abbrev is_name : String → Bool
is_name (f ∷ r ∷ []) = is_file f && is_rank r
is_name _ = false

is_name-IsName : (s : String) → is_name s ≡ true → IsName s
is_name-IsName [] h = absurd cc
is_name-IsName (f ∷ []) h = absurd cc
is_name-IsName (f ∷ r ∷ c ∷ s) h = absurd cc
is_name-IsName (f ∷ r ∷ []) h = record {
  file = f;
  rank = r;
  spelled = refl;
  in_files = ground (arith, h);
  in_ranks = ground (arith, h);
}

abbrev named : ℕ → Bool
named s = is_name (square_name s) && parse_square (square_name s) == s

all-named : all named (range_from 0 64) ≡ true
all-named = refl

square_name-IsName : (s : ℕ) → s < 64 → IsName (square_name s)
square_name-IsName s h =
    let test = all_in-range named 0 64 s all-named (omega arith) h in
    is_name-IsName (square_name s) (ground (arith, test))

parse_square-square_name : (s : ℕ) → s < 64 → parse_square (square_name s) ≡ s
parse_square-square_name s h =
    let test = all_in-range named 0 64 s all-named (omega arith) h in ground (arith, test)

abbrev promoting : DuckTurn
promoting = record {
  from_square = 52;
  to_square = 60;
  promotion = some queen;
  duck_square = some 8;
}

text_of_promoting : uci square_name promoting ≡ "e7e8q,e8a2"
unfolding uci
text_of_promoting = refl

from_uci-uci_example : from_uci parse_square (uci square_name promoting) ≡ ok promoting
from_uci-uci_example =
    from_uci-uci square_name parse_square square_name-IsName parse_square-square_name promoting
      (omega arith) (omega arith) (λ e. absurd (omega (arith, e))) refl (omega arith)
