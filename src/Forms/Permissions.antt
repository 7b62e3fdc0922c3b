-- ===== src/Forms/Permissions.antt =====
-- Who may do what with a form: cope/domains/forms/permissions.py, and `form_permission`, `get_form`
-- and `object_version` of cope/domains/forms/storage.py. Ids of forms are numbers, since they are
-- only compared. An exception rolls the transaction back.
pub mod Granted
pub mod Again
pub mod Managers
use cope_chess.Prelude.{
  ℕ, zero, suc, ◌+◌, List, [], ◌∷◌, ◌++◌, Option, none, some, Bool, true, false, not, ◌&&◌, ◌||◌,
  ◌==◌, ltb, leb, if◌then◌else◌, any, all, keep, first, map, sort_by, String, ◌=s◌,
}
use cope_chess.Exec.{Result, ok, err}
use cope_chess.Forms.Uuid.{after_text, is_canonical}

pub data Permission : Type 0 where
  read edit review responses : Permission

-- the place in the order of the texts 'edit', 'read', 'responses', 'review'
abbrev pub rank : Permission → ℕ
rank edit = 0
rank read = 1
rank responses = 2
rank review = 3

-- p in ps
abbrev pub has : Permission → List Permission → Bool
has p ps = any (λ q. rank p == rank q) ps

pub record FormRow : Type 0 where
  pub id : ℕ
  pub owner_actor : String

pub record Grant : Type 0 where
  pub form_id : ℕ
  pub actor : String
  pub permission : Permission
  pub granted_by : String

pub record ObjectRow : Type 0 where
  pub id : ℕ
  pub state_version : ℕ

pub record ControlToken : Type 0 where
  pub id : String
  pub is_revoked : Bool
  pub expires_at : ℕ

pub record Access : Type 0 where
  pub forms : List FormRow
  pub grants : List Grant
  pub objects : List ObjectRow
  pub tokens : List ControlToken
  pub clock : ℕ

-- the credential: `'*' in scopes`, and whether its kind is 'form_claim'
pub record Principal : Type 0 where
  pub actor : String
  pub is_administrator : Bool
  pub is_form_claim : Bool

pub data AccessError : Type 0 where
  not_found permission_denied identity_mismatch : AccessError
  identity_unavailable invalid_permissions owner_access : AccessError

unfoldable pub get_form : ℕ → Access → Option FormRow
get_form target s = first (λ f. f.id == target) s.forms

-- the permissions that allow what one permission allows
unfoldable pub allowed : Permission → List Permission
allowed read = read ∷ edit ∷ review ∷ []
allowed responses = responses ∷ review ∷ []
allowed p = p ∷ []

unfoldable pub form_permission : Principal → FormRow → Permission → Access → Bool
unfolding allowed
form_permission principal form permission s =
    not principal.is_form_claim
    && (principal.is_administrator
        || principal.actor =s form.owner_actor
        || any
            (λ g.
              g.form_id == form.id
              && g.actor =s principal.actor
              && has g.permission (allowed permission))
            s.grants)

unfoldable pub object_version : ℕ → Access → Option ℕ
object_version target s = elim (first (λ o. o.id == target) s.objects) [
  | none ↦ none
  | some o ↦ some o.state_version
]

pub record FormTarget : Type 0 where
  pub form : FormRow
  pub version : ℕ

unfoldable pub versioned : FormRow → Option ℕ → Result AccessError FormTarget
versioned form none = err identity_mismatch
versioned form (some v) = ok (record { form = form; version = v })

-- `form_resolver("edit", "state_version")`, of a form that exists
unfoldable pub resolve_form : Principal → FormRow → Access → Result AccessError FormTarget
unfolding versioned
resolve_form principal form s =
    if form_permission principal form edit s
    then versioned form (object_version form.id s)
    else err permission_denied

unfoldable pub may_manage :
    Principal → Result AccessError FormTarget → Result AccessError FormTarget
may_manage principal (err e) = err e
may_manage principal (ok t) =
    if not principal.is_administrator && not (t.form.owner_actor =s principal.actor)
    then err permission_denied
    else ok t

unfoldable pub manage_found : Principal → Option FormRow → Access → Result AccessError FormTarget
unfolding resolve_form may_manage
manage_found principal none s = err not_found
manage_found principal (some form) s = may_manage principal (resolve_form principal form s)

unfoldable pub manage_target : Principal → ℕ → Access → Result AccessError FormTarget
unfolding manage_found
manage_target principal target s = manage_found principal (get_form target s) s

unfoldable pub current_identity : String → Access → Bool
unfolding after_text is_canonical
current_identity actor s =
    if actor =s "browser:admin" || actor =s "browser:manager"
    then true
    else elim (after_text "token:" actor) [
      | none ↦ false
      | some identifier ↦
          is_canonical identifier
          && any
              (λ (t : ControlToken).
                t.id =s identifier && not t.is_revoked && ltb s.clock t.expires_at)
              s.tokens
    ]

-- `not permissions`
abbrev pub grants_nothing : List Permission → Bool
grants_nothing [] = true
grants_nothing _ = false

-- `len(permissions) != len(set(permissions))`
unfoldable pub repeats : List Permission → Bool
repeats [] = false
repeats (p ∷ ps) = has p ps || repeats ps

-- the permissions of an actor on a form: the set `old`
unfoldable pub is_row : ℕ → String → Grant → Bool
is_row form_id actor g = g.form_id == form_id && g.actor =s actor

unfoldable pub held : ℕ → String → List Grant → List Permission
unfolding is_row
held form_id actor grants = map (λ g. g.permission) (keep (is_row form_id actor) grants)

-- equality of sets
unfoldable pub same_set : List Permission → List Permission → Bool
same_set ps qs = all (λ p. has p qs) ps && all (λ q. has q ps) qs

pub record SetPermissions : Type 0 where
  pub actor : String
  pub permissions : List Permission

pub record Granting : Type 0 where
  pub version : ℕ
  pub permissions : List Permission

unfoldable pub sorted : List Permission → List Permission
sorted ps = sort_by (λ p q. ltb (rank p) (rank q)) ps

-- the three statements for a set that changes
unfoldable pub replace_grants : Principal → ℕ → SetPermissions → Access → Access
unfolding is_row sorted
replace_grants principal form_id payload s = record s {
  grants =
      keep (λ g. not (is_row form_id payload.actor g)) s.grants
      ++ map
          (λ p. record {
            form_id = form_id;
            actor = payload.actor;
            permission = p;
            granted_by = principal.actor;
          })
          (sorted payload.permissions);
  objects =
      map
        (λ (o : ObjectRow).
          if o.id == form_id then record o { state_version = suc o.state_version } else o)
        s.objects;
}

unfoldable pub set_permissions :
    Principal → FormTarget → SetPermissions → Access → Result AccessError Granting × Access
unfolding repeats current_identity held same_set replace_grants sorted
set_permissions principal target payload s =
    let old = held target.form.id payload.actor s.grants in
    let same = same_set old payload.permissions in
    let replaced = replace_grants principal target.form.id payload s in
    let permissions = sorted payload.permissions in
    if repeats payload.permissions
    then (err invalid_permissions, s)
    else if not (grants_nothing payload.permissions) && not (current_identity payload.actor s)
    then (err identity_unavailable, s)
    else if payload.actor =s target.form.owner_actor
    then (err owner_access, s)
    else if same
    then (ok (record { version = target.version; permissions = permissions }), s)
    else (ok (record { version = suc target.version; permissions = permissions }), replaced)
