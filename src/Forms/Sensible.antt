-- ===== src/Forms/Sensible.antt =====
-- The tests of one field in cope/domains/forms/definition.py, and what a sensible field is.
use mathlib.Core.Path.{subst}
use cope_chess.Prelude.{
  List, Bool, true, false, not, ◌&&◌, ◌||◌, is_none, String, ◌≡◌, All, arith, inl, inr, Bool-cases,
  Option-cases,
}
use cope_chess.Forms.Definition.{
  FieldInfo, FormFields, is_group, is_empty, is_number, is_attachment, has_choices,
}
use cope_chess.Forms.Compile.{
  field_tests, later_tests, zone_tests, in_group, no_texts, no_choices, repeats,
}
use cope_chess.Forms.WellFormed.{IsSensible}
use cope_chess.Forms.Emits.{Clean}

module _ (known_timezone : String → Bool) where
  -- the tests of one field, and what its kind says of its own fields
  pub IsSensible-to :
      (by_id : List FieldInfo) (f : FieldInfo) (fields : FormFields)
      → All Clean (field_tests by_id f)
      → (is_group f.kind ≡ true → is_empty fields ≡ false)
      → (is_group f.kind ≡ false → is_empty fields ≡ true)
      → All Clean (later_tests known_timezone f)
      → IsSensible known_timezone f fields
  unfolding field_tests later_tests zone_tests
  IsSensible-to by_id f fields
        (_, (label, (bounds, (fin, (ord, (num, (att, (clear, (ch, (un, _)))))))))) group plain
        (ref, zone) =
      record {
        labelled = label;
        lengths = ground (arith, bounds);
        items = ground (arith, bounds);
        minimum_finite = ground (arith, fin);
        maximum_finite = ground (arith, fin);
        ordered = ground (arith, fin, ord);
        bounded = λ k. (ground (arith, num, k), ground (arith, num, k));
        contents = λ k. ground (arith, att, k);
        clearing = λ r. ground (arith, clear, r);
        chosen = λ k. (ground (arith, ch, k), ground (arith, ch, k));
        unchosen = λ k. ground (arith, un, k);
        grouped = elim (Bool-cases (is_group f.kind)) [
          | inl g ↦ let e = group g in ground (arith, g, e)
          | inr g ↦ let e = plain g in ground (arith, g, e)
        ];
        referring = ground (arith, ref);
        zoned = λ z e.
            let tests = subst (λ o. All Clean (zone_tests known_timezone f o)) e zone in
            (ground (arith, tests.0), ground (arith, tests.1.0));
      }

  pub IsSensible-from :
      (by_id : List FieldInfo) (f : FieldInfo) (fields : FormFields)
      → in_group by_id f.id ≡ false
      → IsSensible known_timezone f fields
      → All Clean (field_tests by_id f) × All Clean (later_tests known_timezone f)
  unfolding field_tests later_tests zone_tests
  IsSensible-from by_id f fields new s = (
    (
      new,
      (
        s.labelled,
        (
          ground (arith, s.lengths, s.items),
          (
            ground (arith, s.minimum_finite, s.maximum_finite),
            (
              ground (arith, s.ordered),
              (numbers, (contents, (clearing, (chosen, (unchosen, tt))))),
            ),
          ),
        ),
      ),
    ),
    (ground (arith, s.referring), zones),
  )
    where
      numbers :
          (not (is_number f.kind) && (not (is_none f.minimum) || not (is_none f.maximum))) ≡ false
      numbers = elim (Bool-cases (is_number f.kind)) [
        | inl k ↦ ground (arith, k)
        | inr k ↦ let b = s.bounded k in ground (arith, k, b.0, b.1)
      ]

      contents : (not (no_texts f.accepted_content_types) && not (is_attachment f.kind)) ≡ false
      contents = elim (Bool-cases (is_attachment f.kind)) [
        | inl k ↦ ground (arith, k)
        | inr k ↦ let b = s.contents k in ground (arith, k, b)
      ]

      clearing : (f.required && f.nullable) ≡ false
      clearing = elim (Bool-cases f.required) [
        | inl k ↦ let b = s.clearing k in ground (arith, k, b)
        | inr k ↦ ground (arith, k)
      ]

      chosen : (has_choices f.kind && (no_choices f.choices || repeats f.choices)) ≡ false
      chosen = elim (Bool-cases (has_choices f.kind)) [
        | inl k ↦ let b = s.chosen k in ground (arith, k, b.0, b.1)
        | inr k ↦ ground (arith, k)
      ]

      unchosen : (not (has_choices f.kind) && not (no_choices f.choices)) ≡ false
      unchosen = elim (Bool-cases (has_choices f.kind)) [
        | inl k ↦ ground (arith, k)
        | inr k ↦ let b = s.unchosen k in ground (arith, k, b)
      ]

      zones : All Clean (zone_tests known_timezone f f.timezone)
      zones = elim (Option-cases f.timezone) [
        | inl e ↦ rw e tt
        | inr (zone, e) ↦
            let b = s.zoned zone e in rw e (ground (arith, b.0), (ground (arith, b.0, b.1), tt))
      ]
