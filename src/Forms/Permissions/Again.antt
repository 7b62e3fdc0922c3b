-- ===== src/Forms/Permissions/Again.antt =====
-- A command that is sent twice: `set_permissions` of cope/domains/forms/permissions.py.
use text.Mathlib.TextEquality.{eq_iff}
use cope_chess.Prelude.{
  List, true, false, not, ◌&&◌, ◌==◌, ==_iff, ◌≡◌, refl, sym, ap, ◌∙◌, inl, inr, Bool-cases, arith,
  ◌=s◌,
}
use cope_chess.Exec.{Result, ok, err}
use cope_chess.Forms.Permissions.{
  Permission, Access, Principal, AccessError, FormTarget, held, same_set, sorted, SetPermissions,
  Granting, replace_grants, repeats, grants_nothing, current_identity, set_permissions,
  invalid_permissions, identity_unavailable, owner_access,
}
use cope_chess.Forms.Permissions.Granted.{
  is_granted-held, has-same_set, set_permissions-cases, set_permissions-granted,
}

abbrev permissions_of : Result AccessError Granting → List Permission → List Permission
permissions_of (ok r) ps = r.permissions
permissions_of (err e) ps = ps

-- the answer to a command that changes nothing
unchanged :
    (principal : Principal) (target : FormTarget) (payload : SetPermissions) (s : Access)
    → repeats payload.permissions ≡ false
    → (not (grants_nothing payload.permissions) && not (current_identity payload.actor s)) ≡ false
    → (payload.actor =s target.form.owner_actor) ≡ false
    → same_set (held target.form.id payload.actor s.grants) payload.permissions ≡ true
    → set_permissions principal target payload s
      ≡ (ok (record { version = target.version; permissions = sorted payload.permissions }), s)
unfolding set_permissions
unchanged principal target payload s a b c d = rw (a, b, c, d) refl

module _ (principal : Principal) (target : FormTarget) (payload : SetPermissions) (s : Access)
    (r : Granting) (h : (set_permissions principal target payload s).0 ≡ ok r) where
  after : Access
  after = (set_permissions principal target payload s).1

  -- what an accepted command has passed, and the permissions that it reports
  passed :
      (repeats payload.permissions ≡ false)
      × ((not (grants_nothing payload.permissions) && not (current_identity payload.actor s))
          ≡ false)
      × ((payload.actor =s target.form.owner_actor) ≡ false)
      × (r.permissions ≡ sorted payload.permissions)
  unfolding set_permissions
  passed = elim (Bool-cases (repeats payload.permissions)) [
    | inl a ↦ absurd (clash invalid_permissions (rw a refl))
    | inr a ↦
        elim (Bool-cases
          (not (grants_nothing payload.permissions) && not (current_identity payload.actor s))) [
            | inl b ↦ absurd (clash identity_unavailable (rw (a, b) refl))
            | inr b ↦ elim (Bool-cases (payload.actor =s target.form.owner_actor)) [
              | inl c ↦ absurd (clash owner_access (rw (a, b, c) refl))
              | inr c ↦ (
                a,
                b,
                c,
                elim (Bool-cases
                    (same_set (held target.form.id payload.actor s.grants) payload.permissions)) [
                      | inl d ↦
                          sym (ap (λ q. permissions_of q r.permissions) h) ∙ rw (a, b, c, d) refl
                      | inr d ↦
                          sym (ap (λ q. permissions_of q r.permissions) h) ∙ rw (a, b, c, d) refl
                    ],
              )
            ]
          ]
  ]
    where
      clash : (e : AccessError) → set_permissions principal target payload s ≡ (err e, s) → ⊥
      clash e raised = let both = sym (ap (λ q. q.0) raised) ∙ h in absurd cc

  -- credentials are as before
  same_identity : current_identity payload.actor after ≡ current_identity payload.actor s
  unfolding after replace_grants current_identity
  same_identity = elim (set_permissions-cases principal target payload s r h) [
    | inl (_, same, _) ↦ ap (current_identity payload.actor) same
    | inr (_, same, _) ↦ ap (current_identity payload.actor) same
  ]

  now_held : same_set (held target.form.id payload.actor after.grants) payload.permissions ≡ true
  unfolding after
  now_held = has-same_set _ payload.permissions (λ p.
      let mine = (==_iff target.form.id target.form.id).1 refl in
      let me = (eq_iff payload.actor payload.actor).1 refl in
      let test : (target.form.id == target.form.id && payload.actor =s payload.actor) ≡ true =
        ground (arith, mine, me) in
      sym (is_granted-held target.form.id payload.actor p after)
      ∙ set_permissions-granted principal target payload s r h target.form.id payload.actor p
      ∙ rw test refl)

  -- A command that was accepted can be sent again at the new version of the form: it is accepted with the
  -- same answer and changes nothing.
  pub set_permissions-again :
      set_permissions principal
        (record target { version = r.version })
        payload
        (set_permissions principal target payload s).1
      ≡ (ok r, (set_permissions principal target payload s).1)
  unfolding after
  set_permissions-again =
      let (a, b, c, d) = passed in
      let b2 : (not (grants_nothing payload.permissions)
            && not (current_identity payload.actor after))
          ≡ false =
        ap (λ t. not (grants_nothing payload.permissions) && not t) same_identity ∙ b in
      unchanged principal (record target { version = r.version }) payload after a b2 c now_held
      ∙ ap (λ ps. (ok (record { version = r.version; permissions = ps }), after)) (sym d)
