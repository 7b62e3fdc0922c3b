-- ===== src/Forms/Tested.antt =====
-- What the loops of `compile_definition`, cope/domains/forms/definition.py, find and count.
use cope_chess.Prelude.{
  ℕ, suc, ◌+◌, List, [], ◌∷◌, ◌++◌, Bool, true, false, not, leb, ◌||◌, if◌then◌else◌, String, ◌≡◌,
  refl, All, arith,
}
use cope_chess.Forms.Definition.{FieldInfo, FormFields, no_more, form_field, is_group, is_empty}
use cope_chess.Forms.Compile.{
  Check, invalid_group, unexpected_children, fail_if, fail_each, field_tests, later_tests, counted,
  check_conditions, condition_tests, all_by_id, check_fields,
}
use cope_chess.Forms.WellFormed.{size}
use cope_chess.Forms.Emits.{
  Emits, Emits-if, Emits-then, Emits-iff, Emits-id, Emits-counted, Emits-fail_if, Clean,
  Emits-fail_each,
}

-- the conditions of a tuple's fields, as they are tested
abbrev pub ConditionsHold : List FieldInfo → FormFields → Type 0
ConditionsHold by_id no_more = Unit
ConditionsHold by_id (form_field f fields rest) =
    All Clean (condition_tests by_id f.when) × ConditionsHold by_id rest

pub Emits-conditions :
    (by_id : List FieldInfo) (parent : List String) (fields : FormFields)
    → Emits (check_conditions by_id parent fields) 0 (ConditionsHold by_id fields)
unfolding check_conditions
Emits-conditions by_id parent no_more = Emits-id
Emits-conditions by_id parent (form_field f fields rest) =
    Emits-then (fail_each (parent ++ (f.id ∷ [])) (condition_tests by_id f.when))
      (check_conditions by_id parent rest) 0 0 _ _
      (Emits-fail_each (parent ++ (f.id ∷ [])) (condition_tests by_id f.when))
      (Emits-conditions by_id parent rest)

size_empty : (fields : FormFields) → is_empty fields ≡ true → size fields ≡ 0
size_empty no_more e = refl
size_empty (form_field f fields rest) e = absurd cc

module _ (known_timezone : String → Bool) where
  -- the fields of a tuple, as they are tested
  abbrev pub FieldsHold : FormFields → ℕ → List FieldInfo → Type 0
  FieldsHold no_more depth by_id = Unit
  FieldsHold (form_field f fields rest) depth by_id =
      All Clean (field_tests by_id f)
      × ((((is_group f.kind ≡ true → (is_empty fields || leb 3 depth) ≡ false)
              × (is_group f.kind ≡ false → is_empty fields ≡ true))
            × (is_group f.kind ≡ true
                → FieldsHold fields (suc depth) [] × ConditionsHold (all_by_id fields []) fields))
          × (All Clean (later_tests known_timezone f) × FieldsHold rest depth (f ∷ by_id)))

  module _ (f : FieldInfo) (fields : FormFields) (path : List String) (depth : ℕ) where
    abbrev Nested : Type 0
    Nested = FieldsHold fields (suc depth) [] × ConditionsHold (all_by_id fields []) fields

    abbrev Group : Type 0
    Group =
        ((is_group f.kind ≡ true → (is_empty fields || leb 3 depth) ≡ false)
          × (is_group f.kind ≡ false → is_empty fields ≡ true))
        × (is_group f.kind ≡ true → Nested)

    abbrev grouped : Check → Check
    grouped tested =
        if is_group f.kind
        then if is_empty fields || leb 3 depth
          then fail_if true path invalid_group tested
          else check_conditions (all_by_id fields []) path fields
              (check_fields known_timezone fields path (suc depth) [] tested)
        else fail_if (not (is_empty fields)) path unexpected_children tested

    Emits-grouped :
        Emits
          (check_fields known_timezone fields path (suc depth) [])
          (size fields)
          (FieldsHold fields (suc depth) [])
        → Emits grouped (size fields) Group
    Emits-grouped inner =
        Emits-if (is_group f.kind) _ _ (size fields) Group
          (λ g.
            Emits-if (is_empty fields || leb 3 depth) _ _ (size fields) Group (λ e. invalid g e)
              (λ e. scoped g e))
          plain
      where
        invalid :
            is_group f.kind ≡ true
            → (is_empty fields || leb 3 depth) ≡ true
            → Emits (fail_if true path invalid_group) (size fields) Group
        invalid g e =
            let bad = Emits-fail_if true path invalid_group in
            record {
              counts = λ s h. absurd (ground (arith, h.0.0 g, e));
              clean = λ s c. absurd (ground (arith, (bad.clean s c).1));
              quiet = λ s c h. absurd (ground (arith, h.0.0 g, e));
            }

        scoped :
            is_group f.kind ≡ true
            → (is_empty fields || leb 3 depth) ≡ false
            → Emits
                (λ s.
                  check_conditions
                    (all_by_id fields [])
                    path
                    fields
                    (check_fields known_timezone fields path (suc depth) [] s))
                (size fields)
                Group
        scoped g e =
            Emits-iff _ (size fields + 0) (size fields) Nested Group (omega arith)
              (λ n. ((λ _. e, λ no. absurd (ground (arith, g, no))), λ _. n)) (λ h. h.1 g)
              (Emits-then (check_fields known_timezone fields path (suc depth) [])
                (check_conditions (all_by_id fields []) path fields) (size fields) 0 _ _ inner
                (Emits-conditions (all_by_id fields []) path fields))

        plain :
            is_group f.kind ≡ false
            → Emits (fail_if (not (is_empty fields)) path unexpected_children) (size fields) Group
        plain g =
            let check = Emits-fail_if (not (is_empty fields)) path unexpected_children in
            record {
              counts = λ s h.
                  let none = size_empty fields (h.0.1 g) in
                  let c = check.counts s (ground (arith, h.0.1 g)) in omega (arith, none, c);
              clean = λ s c.
                  let r = check.clean s c in
                  (
                    r.0,
                    (
                      (λ no. absurd (ground (arith, g, no)), λ _. ground (arith, r.1)),
                      λ no. absurd (ground (arith, g, no)),
                    ),
                  );
              quiet = λ s c h. check.quiet s c (ground (arith, h.0.1 g));
            }

  pub Emits-check_fields :
      (fields : FormFields) (parent : List String) (depth : ℕ) (by_id : List FieldInfo)
      → Emits
          (check_fields known_timezone fields parent depth by_id)
          (size fields)
          (FieldsHold fields depth by_id)
  unfolding check_fields
  Emits-check_fields no_more parent depth by_id = Emits-id
  Emits-check_fields (form_field f fields rest) parent depth by_id =
      let path = parent ++ (f.id ∷ []) in
      let tests = Emits-fail_each path (field_tests by_id f) in
      let group =
        Emits-grouped f fields path depth (Emits-check_fields fields path (suc depth) []) in
      let later = Emits-fail_each path (later_tests known_timezone f) in
      let others = Emits-check_fields rest parent depth (f ∷ by_id) in
      let begun = Emits-then counted _ 1 0 _ _ Emits-counted tests in
      let nested = Emits-then _ _ 1 (size fields) _ _ begun group in
      let field = Emits-then _ _ (1 + size fields) 0 _ _ nested later in
      let all = Emits-then _ _ _ (size rest) _ _ field others in
      Emits-iff _ (1 + size fields + 0 + size rest) _ _ _ (omega arith)
        (λ h. (h.0.0.0.1, (h.0.0.1, (h.0.1, h.1)))) (λ h. ((((tt, h.0), h.1.0), h.1.1.0), h.1.1.1))
        all
