-- ===== src/Forms/Accepted.antt =====
-- `compile_definition` of cope/domains/forms/definition.py and the well-formed definitions.
use cope_chess.Prelude.{
  ℕ, suc, ◌+◌, ◌≤◌, List, [], ◌∷◌, Bool, true, false, leb, ltb, ◌||◌, ◌↔◌, String, ◌≡◌, refl, sym,
  ap, ◌∙◌, All, All-all, arith, inl, inr, Bool-cases, List-cases, is_blank,
}
use cope_chess.Exec.{ok, err}
use cope_chess.Forms.Definition.{
  FieldInfo, FormFields, no_more, form_field, FormDefinition, is_group, is_empty, infos,
}
use cope_chess.Forms.Compile.{
  Check, too_many_fields, missing_title, field_tests, all_by_id, scope, definition_errors,
  raise_errors, compile_definition,
}
use cope_chess.Forms.WellFormed.{
  AllSensible, Different, HasControl, height, size, InGroups, IsTuple, IsWellFormed,
}
use cope_chess.Forms.Emits.{Emits, Emits-then, Emits-fail_if}
use cope_chess.Forms.Tested.{ConditionsHold, FieldsHold, Emits-conditions, Emits-check_fields}
use cope_chess.Forms.Meaning.{
  Unseen, Unseen-Different, Different-Unseen, condition-to, condition-from,
}
use cope_chess.Forms.Sensible.{IsSensible-to, IsSensible-from}

conditions-to :
    (all fields : FormFields)
    → Different (infos all)
    → ConditionsHold (all_by_id all []) fields
    → All (HasControl (infos all)) (infos fields)
conditions-to all no_more d h = tt
conditions-to all (form_field f fields rest) d h =
    (condition-to all f d h.0, conditions-to all rest d h.1)

conditions-from :
    (all fields : FormFields)
    → Different (infos all)
    → All (HasControl (infos all)) (infos fields)
    → ConditionsHold (all_by_id all []) fields
conditions-from all no_more d h = tt
conditions-from all (form_field f fields rest) d h =
    (condition-from all f d h.0, conditions-from all rest d h.1)

height-empty : (fields : FormFields) → is_empty fields ≡ true → height fields ≡ 0
height-empty no_more e = refl
height-empty (form_field f fields rest) e = absurd cc

height-full : (fields : FormFields) → is_empty fields ≡ false → 1 ≤ height fields
height-full no_more e = absurd cc
height-full (form_field f fields rest) e = omega arith

module _ (known_timezone : String → Bool) where
  -- what the tests of a tuple at some depth say of it
  record Sound (fields : FormFields) (depth : ℕ) (by_id : List FieldInfo) : Type 0 where
    pub sensible : AllSensible known_timezone fields
    pub unseen : Unseen by_id (infos fields)
    pub groups : InGroups IsTuple fields
    pub nested : height fields + depth ≤ 4

  -- a field without fields of its own
  nothing-Sound :
      (fields : FormFields) (depth : ℕ)
      → is_empty fields ≡ true
      → depth ≤ 3
      → Sound fields (suc depth) [] × IsTuple fields
  nothing-Sound no_more depth e d =
      (record { sensible = tt; unseen = tt; groups = tt; nested = omega (arith, d) }, (tt, tt))
  nothing-Sound (form_field f fields rest) depth e d = absurd cc

  hold-Sound :
      (fields : FormFields) (depth : ℕ) (by_id : List FieldInfo)
      → depth ≤ 3
      → FieldsHold known_timezone fields depth by_id
      → Sound fields depth by_id
  unfolding field_tests
  hold-Sound no_more depth by_id d h = record {
    sensible = tt;
    unseen = tt;
    groups = tt;
    nested = omega (arith, d);
  }
  hold-Sound (form_field f fields rest) depth by_id d
        (tests, (((group, plain), inner), (later, more))) =
      let others = hold-Sound rest depth (f ∷ by_id) d more in
      let own = children (λ deep held. hold-Sound fields (suc depth) [] deep held) in
      record {
        sensible = (
          IsSensible-to known_timezone by_id f fields tests
              (λ g. let e = group g in ground (arith, e)) plain later,
          (own.0.sensible, others.sensible),
        );
        unseen = (tests.0, others.unseen);
        groups = ((own.1, own.0.groups), others.groups);
        nested = let a = own.0.nested in let b = others.nested in omega (arith, a, b);
      }
    where
      children :
          (suc depth ≤ 3
            → FieldsHold known_timezone fields (suc depth) []
            → Sound fields (suc depth) [])
          → Sound fields (suc depth) [] × IsTuple fields
      children below = elim (Bool-cases (is_group f.kind)) [
        | inl g ↦
            let low : depth ≤ 2 = let e = group g in ground (arith, e, d) in
            let deep : suc depth ≤ 3 = omega (arith, low) in
            let own = below deep (inner g).0 in
            let different = (Unseen-Different [] (infos fields) own.unseen).0 in
            (own, (different, conditions-to fields fields different (inner g).1))
        | inr g ↦ nothing-Sound fields depth (plain g) d
      ]

  Sound-hold :
      (fields : FormFields) (depth : ℕ) (by_id : List FieldInfo)
      → Sound fields depth by_id
      → FieldsHold known_timezone fields depth by_id
  Sound-hold no_more depth by_id s = tt
  Sound-hold (form_field f fields rest) depth by_id s =
      let tests = IsSensible-from known_timezone by_id f fields s.unseen.0 s.sensible.0 in
      (
        tests.0,
        (
          (
            (λ g. low g, λ g. let b = s.sensible.0.grouped in ground (arith, b, g)),
            λ g. (
              Sound-hold fields (suc depth) [] record {
                sensible = s.sensible.1.0;
                unseen =
                    Different-Unseen [] (infos fields) s.groups.0.0.0
                      (All-all _ (infos fields) (λ f. refl));
                groups = s.groups.0.1;
                nested = let n = s.nested in omega (arith, n);
              },
              conditions-from fields fields s.groups.0.0.0 s.groups.0.0.1,
            ),
          ),
          (
            tests.1,
            Sound-hold rest depth (f ∷ by_id) record {
              sensible = s.sensible.1.1;
              unseen = s.unseen.1;
              groups = s.groups.1;
              nested = let n = s.nested in omega (arith, n);
            },
          ),
        ),
      )
    where
      low : is_group f.kind ≡ true → (is_empty fields || leb 3 depth) ≡ false
      low g =
          let full : is_empty fields ≡ false =
            let b = s.sensible.0.grouped in ground (arith, b, g) in
          let one = height-full fields full in
          let n = s.nested in
          let shallow : suc depth ≤ 3 = omega (arith, one, n) in ground (arith, full, shallow)

  Emits-scope :
      (fields : FormFields) (parent : List String)
      → Emits
          (scope known_timezone fields parent 1)
          (size fields + 0)
          (FieldsHold known_timezone fields 1 [] × ConditionsHold (all_by_id fields []) fields)
  unfolding scope
  Emits-scope fields parent =
      Emits-then _ _ (size fields) 0 _ _ (Emits-check_fields known_timezone fields parent 1 [])
        (Emits-conditions (all_by_id fields []) parent fields)

  errors-none :
      (d : FormDefinition)
      → (definition_errors known_timezone d ≡ []) ↔ IsWellFormed known_timezone d
  unfolding definition_errors
  errors-none d = (accepted, clean)
    where
      emits : Emits (scope known_timezone d.fields [] 1) (size d.fields + 0) (
          FieldsHold known_timezone d.fields 1 [] × ConditionsHold (all_by_id d.fields []) d.fields)
      emits = Emits-scope d.fields []

      final : Check
      final = scope known_timezone d.fields [] 1 ([], 0)

      accepted : definition_errors known_timezone d ≡ [] → IsWellFormed known_timezone d
      accepted e =
          let title = (Emits-fail_if (is_blank d.title) [] missing_title).clean _ e in
          let many = (Emits-fail_if (ltb 200 final.1) [] too_many_fields).clean final title.0 in
          let held = emits.clean ([], 0) many.0 in
          let counted = emits.counts ([], 0) held.1 in
          let sound = hold-Sound d.fields 1 [] (omega arith) held.1.0 in
          let different = (Unseen-Different [] (infos d.fields) sound.unseen).0 in
          record {
            titled = title.1;
            sensible = sound.sensible;
            tuple = (different, conditions-to d.fields d.fields different held.1.1);
            tuples = sound.groups;
            nested = let n = sound.nested in omega (arith, n);
            counted = ground (arith, counted, many.1);
          }

      clean : IsWellFormed known_timezone d → definition_errors known_timezone d ≡ []
      clean w =
          let held : FieldsHold known_timezone d.fields 1 []
              × ConditionsHold (all_by_id d.fields []) d.fields =
            (
              Sound-hold d.fields 1 [] record {
                sensible = w.sensible;
                unseen =
                    Different-Unseen [] (infos d.fields) w.tuple.0
                      (All-all _ (infos d.fields) (λ f. refl));
                groups = w.tuples;
                nested = let n = w.nested in omega (arith, n);
              },
              conditions-from d.fields d.fields w.tuple.0 w.tuple.1,
            ) in
          let counted = emits.counts ([], 0) held in
          let none = emits.quiet ([], 0) refl held in
          let few : ltb 200 final.1 ≡ false = let c = w.counted in ground (arith, counted, c) in
          (Emits-fail_if (is_blank d.title) [] missing_title).quiet _
            ((Emits-fail_if (ltb 200 final.1) [] too_many_fields).quiet final none few) w.titled

  -- A form's definition is accepted exactly when it is well-formed.
  pub compile_definition-IsWellFormed :
      (d : FormDefinition)
      → (compile_definition known_timezone d ≡ ok d) ↔ IsWellFormed known_timezone d
  unfolding compile_definition raise_errors
  compile_definition-IsWellFormed d = elim (List-cases (definition_errors known_timezone d)) [
    | inl e ↦ (λ _. (errors-none d).0 e, λ _. ap (raise_errors d) e)
    | inr (x, xs, e) ↦ (
      λ h. let bad : err (x ∷ xs) ≡ ok d = sym (ap (raise_errors d) e) ∙ h in absurd cc,
      λ w. let none : x ∷ xs ≡ [] = sym e ∙ (errors-none d).1 w in absurd cc,
    )
  ]
