-- ===== src/Forms/Compile.antt =====
-- `compile_definition` of cope/domains/forms/definition.py. The table of time zones is a parameter.
-- A `Check` is the list of errors and the count of fields so far.
use cope_chess.Prelude.{
  ℕ, zero, suc, ◌*◌, List, [], ◌∷◌, ◌++◌, Option, none, some, Bool, true, false, not, ◌&&◌, ◌||◌,
  if◌then◌else◌, leb, ltb, any, first, is_none, map, String, scale, ◌-ℤ◌, not_positive, ◌=s◌,
  is_blank, has_text,
}
use cope_chess.Exec.{Result, ok, err}
use cope_chess.Forms.Definition.{
  Decimal, finite, infinity, not_a_number, FieldKind, Choice, Answer, text_answer, bool_answer,
  Condition, FieldInfo, FormFields, no_more, form_field, FormDefinition, is_group, is_number,
  has_choices, is_attachment, is_reference, has_timezone, is_empty,
}

pub data ErrorCode : Type 0 where
  duplicate_field missing_label invalid_bounds invalid_number_bound invalid_number_bounds :
      ErrorCode
  unexpected_number_bounds unexpected_attachment_policy required_nullable invalid_choices :
      ErrorCode
  unexpected_choices invalid_group unexpected_children reference_type unexpected_timezone :
      ErrorCode
  unknown_timezone invalid_condition condition_type condition_choice : ErrorCode
  too_many_fields missing_title : ErrorCode

-- "path" and "code"
pub record FormError : Type 0 where
  pub path : List String
  pub code : ErrorCode

abbrev pub Check : Type 0
Check = List FormError × ℕ

unfoldable pub fail : List String → ErrorCode → Check → Check
fail path code (errors, count) = (errors ++ (record { path = path; code = code } ∷ []), count)

unfoldable pub fail_if : Bool → List String → ErrorCode → Check → Check
unfolding fail
fail_if true path code s = fail path code s
fail_if false path code s = s

-- tests with the errors that they raise, in order
unfoldable pub fail_each : List String → List (Bool × ErrorCode) → Check → Check
unfolding fail_if
fail_each path [] s = s
fail_each path ((bad, code) ∷ tests) s = fail_each path tests (fail_if bad path code s)

abbrev pub power10 : ℕ → ℕ
power10 zero = 1
power10 (suc n) = 10 * power10 n

-- `value is not None and not value.is_finite()`
abbrev pub is_unbounded : Option Decimal → Bool
is_unbounded (some (infinity negative)) = true
is_unbounded (some not_a_number) = true
is_unbounded _ = false

-- `a > b`, of finite numbers
abbrev pub is_above : Option Decimal → Option Decimal → Bool
is_above (some (finite a n)) (some (finite b m)) =
    not (not_positive (scale (power10 m) a -ℤ scale (power10 n) b))
is_above _ _ = false

-- the ids are not all different
abbrev pub repeats : List Choice → Bool
repeats [] = false
repeats (c ∷ cs) = any (λ (d : Choice). c.id =s d.id) cs || repeats cs

abbrev pub no_choices : List Choice → Bool
no_choices [] = true
no_choices (c ∷ cs) = false

abbrev pub no_texts : List String → Bool
no_texts [] = true
no_texts (t ∷ ts) = false

-- `field.id in by_id`
abbrev pub in_group : List FieldInfo → String → Bool
in_group by_id id = any (λ (f : FieldInfo). f.id =s id) by_id

-- the tests up to the one of the group, for the fields before in `by_id`
unfoldable pub field_tests : List FieldInfo → FieldInfo → List (Bool × ErrorCode)
field_tests by_id f =
    (in_group by_id f.id, duplicate_field)
    ∷ (is_blank f.label, missing_label)
    ∷ (ltb f.max_length f.min_length || ltb f.max_items f.min_items, invalid_bounds)
    ∷ (is_unbounded f.minimum || is_unbounded f.maximum, invalid_number_bound)
    ∷ (
      not (is_unbounded f.minimum || is_unbounded f.maximum) && is_above f.minimum f.maximum,
      invalid_number_bounds,
    )
    ∷ (
      not (is_number f.kind) && (not (is_none f.minimum) || not (is_none f.maximum)),
      unexpected_number_bounds,
    )
    ∷ (
      not (no_texts f.accepted_content_types) && not (is_attachment f.kind),
      unexpected_attachment_policy,
    )
    ∷ (f.required && f.nullable, required_nullable)
    ∷ (has_choices f.kind && (no_choices f.choices || repeats f.choices), invalid_choices)
    ∷ (not (has_choices f.kind) && not (no_choices f.choices), unexpected_choices)
    ∷ []

-- `a != b`
abbrev pub differ : Bool → Bool → Bool
differ true b = not b
differ false b = b

-- `by_id.get(id)`: of fields with one id the last one, which stands first in `by_id`
unfoldable pub control_of : List FieldInfo → String → Option FieldInfo
control_of by_id id = first (λ f. f.id =s id) by_id

abbrev pub is_checkbox : FieldKind → Bool
is_checkbox FieldKind.checkbox = true
is_checkbox _ = false

abbrev pub is_single_choice : FieldKind → Bool
is_single_choice FieldKind.choice = true
is_single_choice _ = false

abbrev pub controls : FieldInfo → Bool
controls f = is_none f.when && (is_checkbox f.kind || is_single_choice f.kind)

abbrev pub is_bool : Answer → Bool
is_bool (bool_answer b) = true
is_bool (text_answer t) = false

abbrev pub is_choice_of : Answer → List Choice → Bool
is_choice_of (text_answer t) choices = has_text t (map (λ (c : Choice). c.id) choices)
is_choice_of (bool_answer b) choices = false

-- the tests of a condition against the field that it names
unfoldable pub control_tests : Answer → Option FieldInfo → List (Bool × ErrorCode)
control_tests equals none = (true, invalid_condition) ∷ []
control_tests equals (some control) =
    (not (controls control), invalid_condition)
    ∷ (controls control && (is_checkbox control.kind && not (is_bool equals)), condition_type)
    ∷ (
      controls control
          && (not (is_checkbox control.kind) && not (is_choice_of equals control.choices)),
      condition_choice,
    )
    ∷ []

unfoldable pub condition_tests : List FieldInfo → Option Condition → List (Bool × ErrorCode)
unfolding control_tests control_of
condition_tests by_id none = []
condition_tests by_id (some c) = control_tests c.equals (control_of by_id c.field)

-- the second loop of `scope`
unfoldable pub check_conditions : List FieldInfo → List String → FormFields → Check → Check
unfolding condition_tests fail_each
check_conditions by_id parent no_more s = s
check_conditions by_id parent (form_field f fields rest) s =
    check_conditions by_id parent rest
      (fail_each (parent ++ (f.id ∷ [])) (condition_tests by_id f.when) s)

-- `by_id` after the first loop
unfoldable pub all_by_id : FormFields → List FieldInfo → List FieldInfo
all_by_id no_more by_id = by_id
all_by_id (form_field f fields rest) by_id = all_by_id rest (f ∷ by_id)

-- `count += 1`
unfoldable pub counted : Check → Check
counted (errors, count) = (errors, suc count)

-- `if errors: raise …`
unfoldable pub raise_errors :
    FormDefinition → List FormError → Result (List FormError) FormDefinition
raise_errors definition [] = ok definition
raise_errors definition (e ∷ es) = err (e ∷ es)

module _ (known_timezone : String → Bool) where
  unfoldable pub zone_tests : FieldInfo → Option String → List (Bool × ErrorCode)
  zone_tests f none = []
  zone_tests f (some zone) =
      (not (has_timezone f.kind), unexpected_timezone)
      ∷ (has_timezone f.kind && not (known_timezone zone), unknown_timezone)
      ∷ []

  -- the tests after the one of the group
  unfoldable pub later_tests : FieldInfo → List (Bool × ErrorCode)
  unfolding zone_tests
  later_tests f =
      (differ (is_reference f.kind) (not (is_none f.reference_type)), reference_type)
      ∷ zone_tests f f.timezone

  -- the first loop of `scope`, with the scope of a group's fields where they are checked
  unfoldable pub check_fields : FormFields → List String → ℕ → List FieldInfo → Check → Check
  unfolding field_tests later_tests fail_each fail_if check_conditions all_by_id counted
  check_fields no_more parent depth by_id s = s
  check_fields (form_field f fields rest) parent depth by_id s =
      let path = parent ++ (f.id ∷ []) in
      let tested = fail_each path (field_tests by_id f) (counted s) in
      let nested = check_fields fields path (suc depth) [] tested in
      let scoped = check_conditions (all_by_id fields []) path fields nested in
      let grouped =
        if is_group f.kind
        then if is_empty fields || leb 3 depth
          then fail_if true path invalid_group tested
          else scoped
        else fail_if (not (is_empty fields)) path unexpected_children tested in
      check_fields rest parent depth (f ∷ by_id) (fail_each path (later_tests f) grouped)

  unfoldable pub scope : FormFields → List String → ℕ → Check → Check
  unfolding check_fields check_conditions all_by_id
  scope fields parent depth s =
      check_conditions (all_by_id fields []) parent fields (check_fields fields parent depth [] s)

  unfoldable pub definition_errors : FormDefinition → List FormError
  unfolding scope fail_if
  definition_errors definition =
      let s = scope definition.fields [] 1 ([], 0) in
      (fail_if (is_blank definition.title) [] missing_title
        (fail_if (ltb 200 s.1) [] too_many_fields s)).0

  unfoldable pub compile_definition : FormDefinition → Result (List FormError) FormDefinition
  unfolding definition_errors raise_errors
  compile_definition definition = raise_errors definition (definition_errors definition)
