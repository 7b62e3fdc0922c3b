-- ===== src/Forms/Uuid.antt =====
-- The texts `str(uuid.UUID(…))` that `current_identity` of cope/domains/forms/permissions.py asks for.
use Prim.Native.Char.{Char, code}
use Prim.Native.String.{[], ◌∷◌}
use cope_chess.Prelude.{
  ℕ, zero, suc, List, [], ◌∷◌, Option, none, some, Bool, true, false, ◌&&◌, ◌||◌, ◌==◌, leb,
  if◌then◌else◌, String,
}

-- the rest of a text after `n` lower-case hexadecimal digits
abbrev pub is_hex : Char → Bool
is_hex c = leb 48 (code c) && leb (code c) 57 || leb 97 (code c) && leb (code c) 102

unfoldable pub after_hex : ℕ → String → Option String
after_hex zero s = some s
after_hex (suc n) [] = none
after_hex (suc n) (c ∷ s) = let rest = after_hex n s in if is_hex c then rest else none

-- the rest of a text after another one
unfoldable pub after_text : String → String → Option String
after_text [] s = some s
after_text (c ∷ t) [] = none
after_text (c ∷ t) (d ∷ s) = let rest = after_text t s in if code c == code d then rest else none

unfoldable pub after_groups : List ℕ → String → Option String
unfolding after_hex after_text
after_groups [] s = some s
after_groups (n ∷ ns) s = elim (after_text "-" s) [
  | none ↦ none
  | some rest ↦ elim (after_hex n rest) [ none ↦ none | some t ↦ after_groups ns t ]
]

-- `str(uuid.UUID(identifier)) == identifier`: 8-4-4-4-12 digits
unfoldable pub is_canonical : String → Bool
unfolding after_hex after_groups
is_canonical s = elim (after_hex 8 s) [
  | none ↦ false
  | some rest ↦ elim (after_groups (4 ∷ 4 ∷ 4 ∷ 12 ∷ []) rest) [ some [] ↦ true | _ ↦ false ]
]
