-- ===== src/Prelude/Blank.antt =====
-- Equality of texts, and the white space that `str.strip` removes.
use Prim.Native.Nat.{ℕ}
use Prim.Native.Char.{code}
use Prim.Native.String.{String, [], ◌∷◌}
use mathlib.Core.Bool.{Bool, true, ◌&&◌, ◌||◌}
use mathlib.Core.List.{List}
use text.Mathlib.Text
use cope_chess.Prelude.Tests.{◌==◌, leb, any}

-- `a == b`, of texts
infix 50 ◌=s◌
abbrev pub ◌=s◌ : String → String → Bool
a =s b = text.Mathlib.Text.◌==◌ a b

-- the code points of `str.isspace`
abbrev pub is_space : ℕ → Bool
is_space n =
    (leb 9 n && leb n 13)
    || (leb 28 n && leb n 32)
    || (leb 8192 n && leb n 8202)
    || (n == 133
        || n == 160
        || n == 5760
        || n == 8232
        || n == 8233
        || n == 8239
        || n == 8287
        || n == 12288)

-- `not text.strip()`
abbrev pub is_blank : String → Bool
is_blank [] = true
is_blank (c ∷ s) = is_space (code c) && is_blank s

-- `text in texts`
abbrev pub has_text : String → List String → Bool
has_text t ts = any (λ u. t =s u) ts
