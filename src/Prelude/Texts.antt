-- ===== src/Prelude/Texts.antt =====
-- The first characters of a text, `text[:n]`, and texts joined.
use Prim.Native.Nat.{ℕ, zero, suc}
use Prim.Native.String.{String, [], ◌∷◌}

abbrev pub prefix : ℕ → String → String
prefix zero s = []
prefix (suc n) [] = []
prefix (suc n) (c ∷ s) = c ∷ prefix n s

-- `a + b`, of texts
infixr 65 ◌+s◌
abbrev pub ◌+s◌ : String → String → String
[] +s t = t
(c ∷ s) +s t = c ∷ (s +s t)
