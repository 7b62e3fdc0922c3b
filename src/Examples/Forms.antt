-- ===== src/Examples/Forms.antt =====
-- A form with a condition and a repeatable group.
use cope_chess.Prelude.{refl, [], none, some, true, false, ◌=s◌, String, Bool, pos}
use cope_chess.Forms.Definition.{
  FieldInfo, FieldKind, no_more, form_field, FormDefinition, bool_answer, finite,
}
use cope_chess.Forms.Compile.{
  compile_definition, raise_errors, definition_errors, scope, check_fields, check_conditions,
  all_by_id, counted, field_tests, later_tests, zone_tests, fail_each, fail_if, fail,
  condition_tests, control_tests, control_of,
}
use cope_chess.Forms.WellFormed.{IsWellFormed}
use cope_chess.Forms.Accepted.{compile_definition-IsWellFormed}

abbrev utc_only : String → Bool
utc_only zone = zone =s "UTC"

abbrev crashed : FieldInfo
crashed = record {
  id = "crashed";
  kind = FieldKind.checkbox;
  label = "Did the engine crash?";
  required = true;
  nullable = false;
  min_length = 0;
  max_length = 4096;
  minimum = none;
  maximum = none;
  timezone = none;
  choices = [];
  when = none;
  min_items = 0;
  max_items = 20;
  reference_type = none;
  accepted_content_types = [];
}

abbrev moment : FieldInfo
moment = record crashed {
  id = "moment";
  kind = FieldKind.datetime;
  label = "When?";
  timezone = some "UTC";
  when = some (record { field = "crashed"; equals = bool_answer true });
}

abbrev games : FieldInfo
games = record crashed { id = "games"; kind = FieldKind.group; label = "Games" }

abbrev plies : FieldInfo
plies = record crashed {
  id = "plies";
  kind = FieldKind.integer;
  label = "Plies";
  minimum = some (finite (pos 1) 0);
  maximum = none;
}

abbrev feedback : FormDefinition
feedback = record {
  title = "Feedback";
  fields =
      form_field crashed no_more
        (form_field moment no_more (form_field games (form_field plies no_more no_more) no_more));
  max_payload_bytes = 1048576;
  max_rows = 200;
}

compile_definition-IsWellFormed_example : IsWellFormed utc_only feedback
unfolding compile_definition raise_errors definition_errors scope check_fields check_conditions
    all_by_id counted field_tests later_tests zone_tests fail_each fail_if fail condition_tests
    control_tests control_of
compile_definition-IsWellFormed_example = (compile_definition-IsWellFormed utc_only feedback).0 refl
