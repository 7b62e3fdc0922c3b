-- ===== src/Variants.antt =====
-- The table of variants, `get_variant`, and what a variant tells an engine and a PGN file, of
-- cope/variants/__init__.py. Boards are made by `DuckBoard` or by python-chess's `Board`.
use cope_chess.Prelude.{List, [], ◌∷◌, Bool, true, false, if◌then◌else◌, String}

pub data VariantId : Type 0 where
  standard dfrc duck duck960 : VariantId

pub record VariantDefinition : Type 0 where
  pub id : VariantId
  pub name : String
  pub rules_revision : String
  pub chess960 : Bool
  pub duck : Bool
  pub requires_openings : Bool

-- `VARIANTS[variant]`, whose keys are the four ids
unfoldable pub get_variant : VariantId → VariantDefinition
get_variant standard = record {
  id = standard;
  name = "Standard";
  rules_revision = "chess1";
  chess960 = false;
  duck = false;
  requires_openings = false;
}
get_variant dfrc = record {
  id = dfrc;
  name = "DFRC";
  rules_revision = "chess1";
  chess960 = true;
  duck = false;
  requires_openings = true;
}
get_variant duck = record {
  id = VariantId.duck;
  name = "Duck";
  rules_revision = "duck1";
  chess960 = false;
  duck = true;
  requires_openings = false;
}
get_variant duck960 = record {
  id = duck960;
  name = "Duck960";
  rules_revision = "duck1";
  chess960 = true;
  duck = true;
  requires_openings = true;
}

pub data OptionValue : Type 0 where
  text : String → OptionValue
  flag : Bool → OptionValue

unfoldable pub uci_options : VariantDefinition → List (String × OptionValue)
uci_options v =
    ("UCI_Variant", text (if v.duck then "duck" else "chess"))
    ∷ ("UCI_Chess960", flag v.chess960)
    ∷ []

unfoldable pub pgn_headers : VariantDefinition → List (String × String)
pgn_headers v =
    if v.duck
    then ("Variant", if v.chess960 then "Duck960" else "Duck")
      ∷ ("VariantRules", v.rules_revision)
      ∷ []
    else if v.chess960
    then ("Variant", "Chess960") ∷ ("CopeVariant", "DFRC") ∷ []
    else []
