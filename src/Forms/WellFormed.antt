-- ===== src/Forms/WellFormed.antt =====
-- What a form's definition may contain, said without the order in which it is checked.
use cope_chess.Prelude.{
  ℕ, suc, ◌+◌, ◌≤◌, max, List, [], ◌∷◌, some, Bool, true, false, not, any, first, if◌then◌else◌,
  is_none, String, ◌≡◌, All, ◌=s◌, is_blank,
}
use cope_chess.Forms.Definition.{
  Condition, FieldInfo, FormFields, no_more, form_field, FormDefinition, is_group, is_number,
  has_choices, is_attachment, is_reference, has_timezone, is_empty, infos, Answer,
}
use cope_chess.Forms.Compile.{
  is_unbounded, is_above, no_choices, repeats, no_texts, controls, is_bool, is_choice_of,
  is_checkbox,
}

-- the number of fields, those of groups included
abbrev pub size : FormFields → ℕ
size no_more = 0
size (form_field f fields rest) = suc (size fields + size rest)

-- how deep groups nest: 1 without groups
abbrev pub height : FormFields → ℕ
height no_more = 0
height (form_field f fields rest) = max (suc (height fields)) (height rest)

-- the ids of a tuple's fields are different
abbrev pub Different : List FieldInfo → Type 0
Different [] = Unit
Different (f ∷ fs) = (any (λ (g : FieldInfo). f.id =s g.id) fs ≡ false) × Different fs

-- an answer that a field's condition may ask for
abbrev pub asks : Answer → FieldInfo → Bool
asks equals control =
    if is_checkbox control.kind then is_bool equals else is_choice_of equals control.choices

-- A condition names an unconditional checkbox or choice among the fields, and one of its answers.
abbrev pub HasControl : List FieldInfo → FieldInfo → Type 0
HasControl fs f =
    (c : Condition)
    → f.when ≡ some c
    → (control : FieldInfo) × ((first (λ (g : FieldInfo). g.id =s c.field) fs ≡ some control)
        × ((controls control ≡ true) × (asks c.equals control ≡ true)))

module _ (known_timezone : String → Bool) where
  pub record IsSensible (f : FieldInfo) (fields : FormFields) : Type 0 where
    pub labelled : is_blank f.label ≡ false
    pub lengths : f.min_length ≤ f.max_length
    pub items : f.min_items ≤ f.max_items
    pub minimum_finite : is_unbounded f.minimum ≡ false
    pub maximum_finite : is_unbounded f.maximum ≡ false
    pub ordered : is_above f.minimum f.maximum ≡ false
    pub bounded : is_number f.kind ≡ false → (is_none f.minimum ≡ true) × (is_none f.maximum ≡ true)
    pub contents : is_attachment f.kind ≡ false → no_texts f.accepted_content_types ≡ true
    pub clearing : f.required ≡ true → f.nullable ≡ false
    pub chosen :
        has_choices f.kind ≡ true → (no_choices f.choices ≡ false) × (repeats f.choices ≡ false)
    pub unchosen : has_choices f.kind ≡ false → no_choices f.choices ≡ true
    pub grouped : is_group f.kind ≡ not (is_empty fields)
    pub referring : is_reference f.kind ≡ not (is_none f.reference_type)
    pub zoned :
        (zone : String)
        → f.timezone ≡ some zone
        → (has_timezone f.kind ≡ true) × (known_timezone zone ≡ true)

  -- the fields of a tuple and of its groups
  abbrev pub AllSensible : FormFields → Type 0
  AllSensible no_more = Unit
  AllSensible (form_field f fields rest) =
      IsSensible f fields × (AllSensible fields × AllSensible rest)

-- the tuples of fields in the groups of a tuple
abbrev pub InGroups : (FormFields → Type 0) → FormFields → Type 0
InGroups P no_more = Unit
InGroups P (form_field f fields rest) = (P fields × InGroups P fields) × InGroups P rest

abbrev pub IsTuple : FormFields → Type 0
IsTuple fields = Different (infos fields) × All (HasControl (infos fields)) (infos fields)

pub record IsWellFormed (known_timezone : String → Bool) (d : FormDefinition) : Type 0 where
  pub titled : is_blank d.title ≡ false
  pub sensible : AllSensible known_timezone d.fields
  pub tuple : IsTuple d.fields
  pub tuples : InGroups IsTuple d.fields
  pub nested : height d.fields ≤ 3
  pub counted : size d.fields ≤ 200
