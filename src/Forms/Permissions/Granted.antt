-- ===== src/Forms/Permissions/Granted.antt =====
-- What actors may do after `set_permissions` of cope/domains/forms/permissions.py.
use text.Mathlib.TextEquality.{eq_iff}
use cope_chess.Prelude.{
  ℕ, List, [], ◌∷◌, Bool, true, false, not, ◌&&◌, ◌||◌, ◌==◌, ==_iff, ltb, if◌then◌else◌, any, all,
  keep, map, any-append, any-keep, any-map, any-sort_by, any_ext, any-none_passes, All-all, suc,
  ◌⊎◌, ◌≡◌, refl, sym, ap, ◌∙◌, inl, inr, Bool-cases, arith, String, ◌=s◌,
}
use cope_chess.Exec.{Result, ok, err}
use cope_chess.Forms.Permissions.{
  Permission, rank, has, Grant, Access, Principal, AccessError, FormTarget, is_row, held, same_set,
  sorted, SetPermissions, Granting, replace_grants, repeats, grants_nothing, current_identity,
  set_permissions, invalid_permissions, identity_unavailable, owner_access,
}

abbrev pub is_granted : ℕ → String → Permission → Access → Bool
is_granted form_id actor p s =
    any (λ g. (g.form_id == form_id && g.actor =s actor) && rank p == rank g.permission) s.grants

-- the grants of an actor on a form are the permissions that it holds
pub is_granted-held :
    (form_id : ℕ) (actor : String) (p : Permission) (s : Access)
    → is_granted form_id actor p s ≡ has p (held form_id actor s.grants)
unfolding held is_row
is_granted-held form_id actor p s = sym (
    any-map (λ q. rank p == rank q) (λ (g : Grant). g.permission)
      (keep (is_row form_id actor) s.grants)
    ∙ any-keep (λ g. rank p == rank g.permission) (is_row form_id actor) s.grants)

pub has_id :
    (p q : Permission) (ps : List Permission) → (rank p == rank q) ≡ true → has p ps ≡ has q ps
has_id p q ps e = ap (λ r. any (λ t. r == rank t) ps) ((==_iff (rank p) (rank q)).0 e)

-- a list whose elements are all in the other has no more permissions
within :
    (p : Permission) (ps qs : List Permission)
    → all (λ q. has q qs) ps ≡ true
    → has p ps ≡ true
    → has p qs ≡ true
within p [] qs h e = absurd cc
within p (q ∷ ps) qs h e = elim (Bool-cases (rank p == rank q)) [
  | inl t ↦ has_id p q qs t ∙ ground (arith, h)
  | inr t ↦ within p ps qs (ground (arith, h)) (ground (arith, e, t))
]

pub same_set-has :
    (p : Permission) (ps qs : List Permission) → same_set ps qs ≡ true → has p ps ≡ has p qs
unfolding same_set
same_set-has p ps qs h = elim (Bool-cases (has p ps)) [
  | inl e ↦ e ∙ sym (within p ps qs (ground (arith, h)) e)
  | inr e ↦ elim (Bool-cases (has p qs)) [
    | inl f ↦ absurd (let g = within p qs ps (ground (arith, h)) f in ground (arith, e, g))
    | inr f ↦ e ∙ sym f
  ]
]

inside :
    (ps qs : List Permission)
    → ((p : Permission) → has p ps ≡ true → has p qs ≡ true)
    → all (λ p. has p qs) ps ≡ true
inside [] qs k = refl
inside (p ∷ ps) qs k =
    let this = k p (ground arith) in
    let rest = inside ps qs (λ q e. k q (ground (arith, e))) in ground (arith, this, rest)

-- lists with the same permissions are the same set
pub has-same_set :
    (ps qs : List Permission) → ((p : Permission) → has p ps ≡ has p qs) → same_set ps qs ≡ true
unfolding same_set
has-same_set ps qs h =
    let left = inside ps qs (λ p e. sym (h p) ∙ e) in
    let right = inside qs ps (λ p e. h p ∙ e) in ground (arith, left, right)

-- the two rows are compared by form and by actor
module _ (principal : Principal) (i : ℕ) (payload : SetPermissions) (s : Access) (form_id : ℕ)
    (actor : String) (p : Permission) where
  row : Permission → Grant
  row q = record {
    form_id = i;
    actor = payload.actor;
    permission = q;
    granted_by = principal.actor;
  }

  tested : Grant → Bool
  tested g = (g.form_id == form_id && g.actor =s actor) && rank p == rank g.permission

  kept_rows : Grant → Bool
  kept_rows g = not (is_row i payload.actor g)

  parts : is_granted form_id actor p (replace_grants principal i payload s) ≡ (
      any (λ g. kept_rows g && tested g) s.grants || any (λ q. tested (row q)) payload.permissions)
  unfolding replace_grants sorted tested kept_rows row
  parts =
      any-append tested (keep kept_rows s.grants) (map row (sorted payload.permissions))
      ∙ ap2 (any-keep tested kept_rows s.grants) (
          any-map tested row (sorted payload.permissions)
          ∙ any-sort_by (λ q r. ltb (rank q) (rank r)) (λ q. tested (row q)) payload.permissions)
    where
      ap2 : {a b c d : Bool} → a ≡ b → c ≡ d → (a || c) ≡ (b || d)
      ap2 e f = rw (e, f) refl

  -- the actor of the change
  same_actor :
      form_id ≡ i
      → actor ≡ payload.actor
      → is_granted form_id actor p (replace_grants principal i payload s)
        ≡ has p payload.permissions
  unfolding is_row tested kept_rows row
  same_actor e f =
      let gone =
        any-none_passes (λ g. kept_rows g && tested g) s.grants (All-all _ s.grants dropped) in
      let new = any_ext (λ q. tested (row q)) (λ q. rank p == rank q) payload.permissions added in
      parts ∙ ground (arith, gone, new)
    where
      dropped : (g : Grant) → (kept_rows g && tested g) ≡ false
      dropped g = rw (e, f) (ground arith)

      added : (q : Permission) → tested (row q) ≡ (rank p == rank q)
      added q =
          let mine = (==_iff i i).1 refl in
          let me = (eq_iff payload.actor payload.actor).1 refl in
          rw (e, f) (ground (arith, mine, me))

  both_rows :
      (g : Grant)
      → is_row form_id actor g ≡ true
      → is_row i payload.actor g ≡ true
      → (form_id == i && actor =s payload.actor) ≡ true
  unfolding is_row
  both_rows g a b =
      let form_is = (==_iff g.form_id form_id).0 (ground (arith, a)) in
      let actor_is = (eq_iff g.actor actor).0 (ground (arith, a)) in
      let same = (==_iff form_id i).1 (sym form_is ∙ (==_iff g.form_id i).0 (ground (arith, b))) in
      let named =
        (eq_iff actor payload.actor).1
          (sym actor_is ∙ (eq_iff g.actor payload.actor).0 (ground (arith, b))) in
      ground (arith, same, named)

  other_actor :
      (form_id == i && actor =s payload.actor) ≡ false
      → is_granted form_id actor p (replace_grants principal i payload s)
        ≡ is_granted form_id actor p s
  unfolding is_row tested kept_rows row
  other_actor e =
      let left = any_ext (λ g. kept_rows g && tested g) tested s.grants stays in
      let right =
        any-none_passes (λ q. tested (row q)) payload.permissions
          (All-all _ payload.permissions absent) in
      parts ∙ ground (arith, left, right)
    where
      stays : (g : Grant) → (kept_rows g && tested g) ≡ tested g
      stays g = elim (Bool-cases (is_row i payload.actor g)) [
        | inl b ↦ elim (Bool-cases (is_row form_id actor g)) [
          | inl a ↦ absurd (let t = both_rows g a b in ground (arith, e, t))
          | inr a ↦ ground (arith, a, b)
        ]
        | inr b ↦ ground (arith, b)
      ]

      absent : (q : Permission) → tested (row q) ≡ false
      absent q = elim (Bool-cases (is_row form_id actor (row q))) [
        | inl a ↦
            let mine = (==_iff i i).1 refl in
            let me = (eq_iff payload.actor payload.actor).1 refl in
            let t = both_rows (row q) a (ground (arith, mine, me)) in absurd (ground (arith, e, t))
        | inr a ↦ ground (arith, a)
      ]

abbrev version_of : Result AccessError Granting → ℕ
version_of (ok r) = r.version
version_of (err e) = 0

-- An accepted change that leaves everything as it is, or that replaces the grants.
abbrev pub Kept : FormTarget → SetPermissions → Access → Granting → Access → Type 0
Kept target payload s r after =
    same_set (held target.form.id payload.actor s.grants) payload.permissions ≡ true
    × (after ≡ s)
    × (r.version ≡ target.version)

abbrev pub Replaced : Principal → FormTarget → SetPermissions → Access → Granting → Access → Type 0
Replaced principal target payload s r after =
    same_set (held target.form.id payload.actor s.grants) payload.permissions ≡ false
    × (after ≡ replace_grants principal target.form.id payload s)
    × (r.version ≡ suc target.version)

pub set_permissions-cases :
    (principal : Principal) (target : FormTarget) (payload : SetPermissions) (s : Access)
    (r : Granting)
    → (set_permissions principal target payload s).0 ≡ ok r
    → Kept target payload s r (set_permissions principal target payload s).1
      ⊎ Replaced principal target payload s r (set_permissions principal target payload s).1
unfolding set_permissions
set_permissions-cases principal target payload s r h =
    elim (Bool-cases (repeats payload.permissions)) [
      | inl a ↦ absurd (clash invalid_permissions (rw a refl))
      | inr a ↦
          elim (Bool-cases
            (not (grants_nothing payload.permissions) && not (current_identity payload.actor s))) [
              | inl b ↦ absurd (clash identity_unavailable (rw (a, b) refl))
              | inr b ↦ elim (Bool-cases (payload.actor =s target.form.owner_actor)) [
                | inl c ↦ absurd (clash owner_access (rw (a, b, c) refl))
                | inr c ↦
                    elim (Bool-cases
                      (same_set (held target.form.id payload.actor s.grants) payload.permissions)) [
                        | inl d ↦
                            inl (
                              d,
                              rw (a, b, c, d) refl,
                              sym (ap version_of h) ∙ rw (a, b, c, d) refl,
                            )
                        | inr d ↦
                            inr (
                              d,
                              rw (a, b, c, d) refl,
                              sym (ap version_of h) ∙ rw (a, b, c, d) refl,
                            )
                      ]
              ]
            ]
    ]
  where
    clash : (e : AccessError) → set_permissions principal target payload s ≡ (err e, s) → ⊥
    clash e raised = let both = sym (ap (λ q. q.0) raised) ∙ h in absurd cc

-- After permissions have been set, the actor has on the form exactly those that were asked for, and
-- all else is as before: other actors, and the actor on other forms.
pub set_permissions-granted :
    (principal : Principal) (target : FormTarget) (payload : SetPermissions) (s : Access)
    (r : Granting)
    → (set_permissions principal target payload s).0 ≡ ok r
    → (form_id : ℕ) (actor : String) (p : Permission)
    → is_granted form_id actor p (set_permissions principal target payload s).1 ≡ (
        if form_id == target.form.id && actor =s payload.actor
        then has p payload.permissions
        else is_granted form_id actor p s)
set_permissions-granted principal target payload s r h form_id actor p =
    elim (Bool-cases (form_id == target.form.id && actor =s payload.actor)) [
      | inl e ↦
          let form_is = (==_iff form_id target.form.id).0 (ground (arith, e)) in
          let actor_is = (eq_iff actor payload.actor).0 (ground (arith, e)) in
          rw e (elim (set_permissions-cases principal target payload s r h) [
            | inl (d, same, _) ↦
                ap (is_granted form_id actor p) same
                ∙ is_granted-held form_id actor p s
                ∙ rw (form_is, actor_is) (same_set-has p _ payload.permissions d)
            | inr (d, same, _) ↦
                ap (is_granted form_id actor p) same
                ∙ same_actor principal target.form.id payload s form_id actor p form_is actor_is
          ])
      | inr e ↦ rw e (elim (set_permissions-cases principal target payload s r h) [
        | inl (d, same, _) ↦ ap (is_granted form_id actor p) same
        | inr (d, same, _) ↦
            ap (is_granted form_id actor p) same
            ∙ other_actor principal target.form.id payload s form_id actor p e
      ])
    ]
