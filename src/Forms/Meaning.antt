-- ===== src/Forms/Meaning.antt =====
-- The ids and conditions of a tuple of fields in cope/domains/forms/definition.py.
use mathlib.Core.Path.{subst}
use text.Mathlib.TextEquality.{eq_iff}
use cope_chess.Prelude.{
  List, [], ◌∷◌, Option, some, none, Bool, true, false, any, any-none_passes, any-false, first,
  String, ◌≡◌, refl, sym, ◌∙◌, All, All-imp, All-both, arith, inl, inr, Bool-cases, Option-cases,
  ◌=s◌,
}
use cope_chess.Forms.Definition.{FieldInfo, FormFields, no_more, form_field, infos}
use cope_chess.Forms.Compile.{condition_tests, control_tests, control_of, all_by_id, in_group}
use cope_chess.Forms.WellFormed.{Different, HasControl}
use cope_chess.Forms.Emits.{Clean}

-- ids that are not among those before, and ids that are not among those after
abbrev pub Unseen : List FieldInfo → List FieldInfo → Type 0
Unseen by_id [] = Unit
Unseen by_id (f ∷ fs) = (in_group by_id f.id ≡ false) × Unseen (f ∷ by_id) fs

abbrev Absent : List FieldInfo → FieldInfo → Type 0
Absent by_id g = in_group by_id g.id ≡ false

pub Unseen-Different :
    (by_id fs : List FieldInfo) → Unseen by_id fs → Different fs × All (Absent by_id) fs
Unseen-Different by_id [] u = (tt, tt)
Unseen-Different by_id (f ∷ fs) u =
    let rest = Unseen-Different (f ∷ by_id) fs u.1 in
    (
      (
        any-none_passes (λ (g : FieldInfo). f.id =s g.id) fs
            (All-imp (Absent (f ∷ by_id)) _ fs (λ g a. ground (arith, a)) rest.1),
        rest.0,
      ),
      (u.0, All-imp (Absent (f ∷ by_id)) (Absent by_id) fs (λ g a. ground (arith, a)) rest.1),
    )

pub Different-Unseen :
    (by_id fs : List FieldInfo) → Different fs → All (Absent by_id) fs → Unseen by_id fs
Different-Unseen by_id [] d a = tt
Different-Unseen by_id (f ∷ fs) d a = (
  a.0,
  Different-Unseen (f ∷ by_id) fs d.1 (
      All-imp _ (Absent (f ∷ by_id)) fs (λ g h. ground (arith, h.0, h.1))
        (All-both _ (Absent by_id) fs (any-false (λ (g : FieldInfo). f.id =s g.id) fs d.0) a.1)),
)

first-none : {A : Type 0} (p : A → Bool) (xs : List A) → any p xs ≡ false → first p xs ≡ none
first-none p [] h = refl
first-none p (x ∷ xs) h =
    let no : p x ≡ false = ground (arith, h) in rw no (first-none p xs (ground (arith, h)))

-- With different ids the last field of a name is the first one.
abbrev or_later : Option FieldInfo → Option FieldInfo → Option FieldInfo
or_later (some f) o = some f
or_later none o = o

others :
    (name : String) (f : FieldInfo) (fs : List FieldInfo)
    → (f.id =s name) ≡ true
    → any (λ (g : FieldInfo). f.id =s g.id) fs ≡ false
    → any (λ (g : FieldInfo). g.id =s name) fs ≡ false
others name f fs e d = any-none_passes _ fs (
    All-imp _ _ fs
      (λ g h. elim (Bool-cases (g.id =s name)) [
        | inl t ↦
            let same : f.id ≡ g.id = (eq_iff f.id name).0 e ∙ sym ((eq_iff g.id name).0 t) in
            absurd (ground (arith, h, (eq_iff f.id g.id).1 same))
        | inr t ↦ t
      ])
      (any-false (λ (g : FieldInfo). f.id =s g.id) fs d))

control_of-infos :
    (name : String) (fields : FormFields) (by_id : List FieldInfo)
    → Different (infos fields)
    → control_of (all_by_id fields by_id) name
      ≡ or_later (first (λ (g : FieldInfo). g.id =s name) (infos fields)) (control_of by_id name)
unfolding control_of all_by_id
control_of-infos name no_more by_id d = refl
control_of-infos name (form_field f fields rest) by_id d =
    let later = control_of-infos name rest (f ∷ by_id) d.1 in
    elim (Bool-cases (f.id =s name)) [
      | inl e ↦
          let none_later = first-none _ (infos rest) (others name f (infos rest) e d.0) in
          later ∙ rw (none_later, e) refl
      | inr e ↦ later ∙ rw e refl
    ]

-- the tests of one condition
pub condition-to :
    (fields : FormFields) (f : FieldInfo)
    → Different (infos fields)
    → All Clean (condition_tests (all_by_id fields []) f.when)
    → HasControl (infos fields) f
unfolding condition_tests control_tests
condition-to fields f d h c e =
    elim (Option-cases (first (λ (g : FieldInfo). g.id =s c.field) (infos fields))) [
      | inl none_found ↦
          let tests = subst (All Clean) (seen none none_found) h in absurd (ground (arith, tests.0))
      | inr (control, found) ↦
          let tests = subst (All Clean) (seen (some control) found) h in
          (
            control,
            (found, (ground (arith, tests.0), ground (arith, tests.0, tests.1.0, tests.1.1.0))),
          )
    ]
  where
    seen :
        (o : Option FieldInfo)
        → first (λ (g : FieldInfo). g.id =s c.field) (infos fields) ≡ o
        → condition_tests (all_by_id fields []) f.when ≡ control_tests c.equals o
    seen none found = let last = control_of-infos c.field fields [] d in rw (e, last, found) refl
    seen (some control) found =
        let last = control_of-infos c.field fields [] d in rw (e, last, found) refl

pub condition-from :
    (fields : FormFields) (f : FieldInfo)
    → Different (infos fields)
    → HasControl (infos fields) f
    → All Clean (condition_tests (all_by_id fields []) f.when)
unfolding condition_tests control_tests
condition-from fields f d h = elim (Option-cases f.when) [
  | inl e ↦ rw e tt
  | inr (c, e) ↦
      let (control, (found, good)) = h c e in
      let last = control_of-infos c.field fields [] d in
      rw (e, last, found)
        (
          ground (arith, good.0, good.1),
          (ground (arith, good.0, good.1), (ground (arith, good.0, good.1), tt)),
        )
]
