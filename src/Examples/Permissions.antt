-- ===== src/Examples/Permissions.antt =====
-- The manager of the site gets permissions on a form.
use cope_chess.Prelude.{
  ◌↔◌, some, [], ◌∷◌, true, false, ◌&&◌, ◌==◌, ◌=s◌, if◌then◌else◌, ◌≡◌, refl, sort_by,
}
use cope_chess.Exec.{ok, err}
use cope_chess.Forms.Permissions.{
  Permission, has, FormRow, Access, Principal, FormTarget, SetPermissions, Granting,
  set_permissions, repeats, current_identity, held, is_row, same_set, replace_grants, sorted,
  get_form, object_version, manage_target, manage_found, resolve_form, versioned, may_manage,
  form_permission, allowed, permission_denied, owner_access,
}
use cope_chess.Forms.Uuid.{after_text, is_canonical, after_hex, after_groups}
use cope_chess.Forms.Permissions.Granted.{is_granted, set_permissions-granted}
use cope_chess.Forms.Permissions.Again.{set_permissions-again}
use cope_chess.Forms.Permissions.Managers.{is_manager, manage_target-IsManager}

abbrev survey : FormRow
survey = record { id = 1; owner_actor = "browser:admin" }

abbrev invited : Access
invited = record {
  forms = survey ∷ [];
  grants =
      record {
        form_id = 1;
        actor = "browser:manager";
        permission = Permission.read;
        granted_by = "browser:admin";
      }
      ∷ [];
  objects = record { id = 1; state_version = 4 } ∷ [];
  tokens =
      record { id = "0a1b2c3d-0000-4000-8000-00000000beef"; is_revoked = false; expires_at = 100 }
      ∷ [];
  clock = 50;
}

abbrev administrator : Principal
administrator = record { actor = "browser:admin"; is_administrator = true; is_form_claim = false }

abbrev survey_target : FormTarget
survey_target = record { form = survey; version = 4 }

abbrev reviewing : SetPermissions
reviewing = record {
  actor = "browser:manager";
  permissions = Permission.review ∷ Permission.edit ∷ [];
}

abbrev answer : Granting
answer = record { version = 5; permissions = Permission.edit ∷ Permission.review ∷ [] }

accepted : (set_permissions administrator survey_target reviewing invited).0 ≡ ok answer
unfolding set_permissions repeats current_identity held is_row same_set replace_grants sorted
    sort_by
accepted = refl

-- An identity is a current token, written as a UUID in lower case.
token-current : current_identity "token:0a1b2c3d-0000-4000-8000-00000000beef" invited ≡ true
unfolding current_identity after_text is_canonical after_hex after_groups
token-current = refl

upper_case-unknown : current_identity "token:0A1B2C3D-0000-4000-8000-00000000BEEF" invited ≡ false
unfolding current_identity after_text is_canonical after_hex after_groups
upper_case-unknown = refl

-- The owner is not invited.
owner-refused :
    set_permissions administrator survey_target
      (record reviewing { actor = "browser:admin" })
      invited
    ≡ (err owner_access, invited)
unfolding set_permissions repeats current_identity
owner-refused = refl

set_permissions-granted_example :
    is_granted 1 "browser:manager" Permission.read
      (set_permissions administrator survey_target reviewing invited).1
    ≡ (if 1 == 1 && "browser:manager" =s "browser:manager"
        then has Permission.read reviewing.permissions
        else is_granted 1 "browser:manager" Permission.read invited)
set_permissions-granted_example =
    set_permissions-granted administrator survey_target reviewing invited answer accepted 1
      "browser:manager" Permission.read

set_permissions-again_example :
    set_permissions administrator
      (record survey_target { version = 5 })
      reviewing
      (set_permissions administrator survey_target reviewing invited).1
    ≡ (ok answer, (set_permissions administrator survey_target reviewing invited).1)
set_permissions-again_example =
    set_permissions-again administrator survey_target reviewing invited answer accepted

-- An actor with the permission to edit does not manage.
editor-denied :
    manage_target
      (record { actor = "browser:manager"; is_administrator = false; is_form_claim = false })
      1
      (set_permissions administrator survey_target reviewing invited).1
    ≡ err permission_denied
unfolding set_permissions repeats current_identity held is_row same_set replace_grants sorted
    sort_by manage_target manage_found resolve_form versioned may_manage form_permission allowed
    object_version get_form
editor-denied = refl

manage_target-IsManager_example : (manage_target administrator 1 invited ≡ ok survey_target) ↔ (
    (get_form 1 invited ≡ some survey)
    × (object_version 1 invited ≡ some 4)
    × (is_manager administrator survey ≡ true))
manage_target-IsManager_example = manage_target-IsManager administrator 1 invited survey_target
