-- ===== src/Forms/Permissions/Managers.antt =====
-- Who may change the permissions on a form: `manage_target` of cope/domains/forms/permissions.py.
use mathlib.Core.Path.{subst}
use text.Mathlib.TextEquality.{eq_iff}
use cope_chess.Prelude.{
  ℕ, some, Bool, true, false, not, ◌&&◌, ◌||◌, ◌≡◌, refl, sym, ap, ◌∙◌, inl, inr, Bool-cases,
  Option-cases, arith, String, ◌=s◌, ◌↔◌,
}
use cope_chess.Exec.{Result, ok, err}
use cope_chess.Forms.Permissions.{
  Access, Principal, AccessError, FormRow, FormTarget, get_form, form_permission, object_version,
  resolve_form, may_manage, manage_target, manage_found, versioned, not_found, permission_denied,
  identity_mismatch, Permission,
}

-- an owner or an administrator, and not the holder of a claim
abbrev pub is_manager : Principal → FormRow → Bool
is_manager principal form =
    not principal.is_form_claim
    && (principal.is_administrator || principal.actor =s form.owner_actor)

abbrev target_of : Result AccessError FormTarget → FormTarget → FormTarget
target_of (ok t) d = t
target_of (err e) d = d

abbrev Managed : Principal → ℕ → Access → FormTarget → Type 0
Managed principal target s t =
    (get_form target s ≡ some t.form)
    × (object_version t.form.id s ≡ some t.version)
    × (is_manager principal t.form ≡ true)

swapped : (a b : String) → (a =s b) ≡ (b =s a)
swapped a b = elim (Bool-cases (a =s b)) [
  | inl e ↦ e ∙ sym ((eq_iff b a).1 (sym ((eq_iff a b).0 e)))
  | inr n ↦ elim (Bool-cases (b =s a)) [
    | inl e ↦ absurd (let f = (eq_iff a b).1 (sym ((eq_iff b a).0 e)) in ground (arith, n, f))
    | inr e ↦ n ∙ sym e
  ]
]

manages :
    (principal : Principal) (f : FormRow) (s : Access)
    → form_permission principal f Permission.edit s ≡ true
    → (not principal.is_administrator && not (f.owner_actor =s principal.actor)) ≡ false
    → is_manager principal f ≡ true
unfolding form_permission
manages principal f s y d =
    let same = swapped principal.actor f.owner_actor in ground (arith, y, d, same)

managed :
    (principal : Principal) (f : FormRow) (s : Access)
    → is_manager principal f ≡ true
    → (form_permission principal f Permission.edit s ≡ true)
      × ((not principal.is_administrator && not (f.owner_actor =s principal.actor)) ≡ false)
unfolding form_permission
managed principal f s m =
    let same = swapped principal.actor f.owner_actor in (ground (arith, m), ground (arith, m, same))

found :
    (principal : Principal) (target : ℕ) (s : Access) (t : FormTarget)
    → manage_target principal target s ≡ ok t
    → Managed principal target s t
unfolding manage_target manage_found resolve_form may_manage versioned
found principal target s t h = elim (Option-cases (get_form target s)) [
  | inl n ↦ absurd (clash not_found (rw n refl))
  | inr (f, e) ↦ elim (Bool-cases (form_permission principal f Permission.edit s)) [
    | inr n ↦ absurd (clash permission_denied (rw (e, n) refl))
    | inl y ↦ elim (Option-cases (object_version f.id s)) [
      | inl n ↦ absurd (clash identity_mismatch (rw (e, y, n) refl))
      | inr (v, w) ↦
          elim (Bool-cases
            (not principal.is_administrator && not (f.owner_actor =s principal.actor))) [
              | inl d ↦ absurd (clash permission_denied (rw (e, y, w, d) refl))
              | inr d ↦
                  let resolved : manage_target principal target s
                      ≡ ok (record { form = f; version = v }) =
                    rw (e, y, w, d) refl in
                  subst (Managed principal target s) (ap (λ q. target_of q t) (sym resolved ∙ h))
                    (e, w, manages principal f s y d)
            ]
    ]
  ]
]
  where
    clash : (e : AccessError) → manage_target principal target s ≡ err e → ⊥
    clash e raised = let both = sym raised ∙ h in absurd cc

-- The target of a change of permissions is found exactly for the owner of the form and for
-- administrators, whatever permissions have been granted, and never for a claim; it is the form with the
-- version of its object.
pub manage_target-IsManager :
    (principal : Principal) (target : ℕ) (s : Access) (t : FormTarget)
    → (manage_target principal target s ≡ ok t) ↔ (
        (get_form target s ≡ some t.form)
        × (object_version t.form.id s ≡ some t.version)
        × (is_manager principal t.form ≡ true))
unfolding manage_target manage_found resolve_form may_manage versioned
manage_target-IsManager principal target s t = (
  found principal target s t,
  λ (a, b, c). let (allow, manage) = managed principal t.form s c in rw (a, allow, b, manage) refl,
)
