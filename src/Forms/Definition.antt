-- ===== src/Forms/Definition.antt =====
-- `FormDefinition`, `FormField`, `Choice` and `Condition` of cope/domains/forms/definition.py, without
-- the columns that no modelled code reads. The fields of a form are a tuple of fields, each of
-- which may have a tuple of its own.
use cope_chess.Prelude.{ℕ, List, [], ◌∷◌, Option, Bool, true, false, String, ℤ}

pub data FieldKind : Type 0 where
  text long_text email integer decimal date time datetime choice multiple_choice checkbox :
      FieldKind
  group attachment reference : FieldKind

-- coefficient / 10 ^ places, ±Infinity and NaN
pub data Decimal : Type 0 where
  finite : (coefficient : ℤ) → (places : ℕ) → Decimal
  infinity : (negative : Bool) → Decimal
  not_a_number : Decimal

pub record Choice : Type 0 where
  pub id : String
  pub label : String

-- `str | StrictBool`
pub data Answer : Type 0 where
  text_answer : String → Answer
  bool_answer : Bool → Answer

pub record Condition : Type 0 where
  pub field : String
  pub equals : Answer

pub record FieldInfo : Type 0 where
  pub id : String
  pub kind : FieldKind
  pub label : String
  pub required : Bool
  pub nullable : Bool
  pub min_length : ℕ
  pub max_length : ℕ
  pub minimum : Option Decimal
  pub maximum : Option Decimal
  pub timezone : Option String
  pub choices : List Choice
  pub when : Option Condition
  pub min_items : ℕ
  pub max_items : ℕ
  pub reference_type : Option String
  pub accepted_content_types : List String

-- a tuple of fields: the first one, its own fields, and those after it
pub data FormFields : Type 0 where
  no_more : FormFields
  form_field : (field : FieldInfo) → (fields : FormFields) → (rest : FormFields) → FormFields

pub record FormDefinition : Type 0 where
  pub title : String
  pub fields : FormFields
  pub max_payload_bytes : ℕ
  pub max_rows : ℕ

abbrev pub is_group : FieldKind → Bool
is_group FieldKind.group = true
is_group _ = false

-- kind in {"integer", "decimal"}
abbrev pub is_number : FieldKind → Bool
is_number FieldKind.integer = true
is_number FieldKind.decimal = true
is_number _ = false

-- kind in {"choice", "multiple_choice"}
abbrev pub has_choices : FieldKind → Bool
has_choices FieldKind.choice = true
has_choices FieldKind.multiple_choice = true
has_choices _ = false

abbrev pub is_attachment : FieldKind → Bool
is_attachment FieldKind.attachment = true
is_attachment _ = false

abbrev pub is_reference : FieldKind → Bool
is_reference FieldKind.reference = true
is_reference _ = false

-- kind in {"datetime", "time"}
abbrev pub has_timezone : FieldKind → Bool
has_timezone FieldKind.datetime = true
has_timezone FieldKind.time = true
has_timezone _ = false

abbrev pub is_empty : FormFields → Bool
is_empty no_more = true
is_empty (form_field f fields rest) = false

-- the fields of one tuple
abbrev pub infos : FormFields → List FieldInfo
infos no_more = []
infos (form_field f fields rest) = f ∷ infos rest
