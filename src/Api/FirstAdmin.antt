-- ===== src/Api/FirstAdmin.antt =====
-- What the first administrator, made by `setup_admin` of negotium/app/api/auth.py, may do.
use patch_machine.Prelude.{
  String, ◌≡◌, refl, true, false, not, ◌&&◌, Option, none, some, [], ◌∷◌, ◌==◌, keep, find, any,
  eq_refl, ap, arith, Bool-cases, inl, inr,
}
use patch_machine.Python.{Builtins, Fields, ok, strip, is_blank}
use patch_machine.Access.Records.{UserRecord}
use patch_machine.Access.Defaults.{
  AclPayload, default_payload, contains, normalize_user, has_active_admin_user, is_admin_role,
  add_missing_roles, add_role,
}
use patch_machine.Access.Store.{
  File, write_payload, read_payload, upsert_user, settle, recover_owner,
}
use patch_machine.Access.Permissions.{grants, resolve_user, effective_permissions, has_permission}
use patch_machine.Access.Documents.{stored, stored_user, read_payload-write_payload}
use patch_machine.Auth.Passwords.{Crypto}
use patch_machine.Api.Outcome.{answer}
use patch_machine.Api.Action.{Stores, Draw}
use patch_machine.Api.Hoare.{
  Triple, OfAcl, bind-Triple, catching-Triple, branch-Triple, fail-Triple, pure-Frame,
  write_acl-Triple, read_acl-Frame, read_auth_file-Frame, write_auth_file-Frame, on_auth-Frame,
  audit-Frame,
}
use patch_machine.Api.Schemas.{SetupAdminPayload}
use patch_machine.Api.Accounts.{setup_admin, create_admin, admin_session, admin_record}

abbrev only_user : UserRecord → AclPayload
only_user user = record default_payload { users = user ∷ [] }

abbrev owner_user : String → String → String → UserRecord
owner_user id display_name title = record {
  id = id;
  display_name = display_name;
  title = title;
  role_id = "owner";
  active = true;
  department = "";
  position_id = "";
}

grants_owner :
    (id display_name title permission : String)
    → is_blank id ≡ false
    → grants (only_user (owner_user id display_name title)) (some id) permission ≡ true
unfolding grants resolve_user effective_permissions find contains any
grants_owner id display_name title permission given =
    rw (grants, resolve_user, given, eq_refl id) refl

module _ (py : Builtins) where
  settle_owner :
      (id display_name title : String)
      → settle py (only_user (owner_user id display_name title))
        ≡ only_user (owner_user id display_name title)
  unfolding settle recover_owner has_active_admin_user is_admin_role add_missing_roles add_role any
      keep contains
  settle_owner id display_name title = refl

  -- Reading the file renames a user at most.
  stored_owner :
      (id display_name title : String)
      → (display_name' title' : String) × (stored (only_user (owner_user id display_name title))
          ≡ only_user (owner_user id display_name' title'))
  unfolding stored stored_user normalize_user
  stored_owner id display_name title =
      elim (Bool-cases (id == "owner" && display_name == "Local Owner")) [
        | inl renamed ↦ ("시스템 관리자", "시스템 관리자", rw renamed refl)
        | inr kept ↦ (display_name, title, rw kept refl)
      ]

  has_permission_owner :
      (id display_name title permission : String)
      → is_blank id ≡ false
      → has_permission py
          (some id)
          permission
          (write_payload (only_user (owner_user id display_name title)))
        ≡ ok true
  unfolding has_permission
  has_permission_owner id display_name title permission given =
      let (display_name', title', same) = stored_owner id display_name title in
      rw
        (
          read_payload-write_payload py (only_user (owner_user id display_name title)) tt,
          same,
          settle_owner id display_name' title',
        )
        (ap ok (grants_owner id display_name' title' permission given))

  upsert_user_first :
      (user : UserRecord) (file file' : File)
      → file ≡ none
      → upsert_user py user file ≡ ok file'
      → file' ≡ write_payload (only_user user)
  unfolding upsert_user read_payload keep
  upsert_user_first user file file' missing run = ground (arith, missing, run)

abbrev IsFirst : SetupAdminPayload → File → Type 0
IsFirst payload file = file ≡ write_payload (only_user (admin_record payload))

module _ (py : Builtins) (crypto : Crypto) (draw : Draw) where
  create_admin-IsFirst :
      (payload : SetupAdminPayload)
      → Triple
          (OfAcl (λ file. file ≡ none))
          (create_admin py crypto draw payload)
          (λ _. OfAcl (IsFirst payload))
  unfolding create_admin
  create_admin-IsFirst payload = bind-Triple _ (write_auth_file-Frame (λ file. file ≡ none) _) λ _.
      bind-Triple _
        (write_acl-Triple (λ file. file ≡ none) {Q = IsFirst payload} _
          λ file file' missing run.
            upsert_user_first py (admin_record payload) file file' missing run)
        λ _. on_auth-Frame (IsFirst payload) _

  admin_session-IsFirst :
      (payload : SetupAdminPayload) (token : Option String)
      → Triple
          (OfAcl (IsFirst payload))
          (admin_session py crypto draw payload token)
          (λ _. OfAcl (IsFirst payload))
  admin_session-IsFirst payload none = fail-Triple _ _
  admin_session-IsFirst payload (some token) =
      bind-Triple _ (audit-Frame (IsFirst payload) draw _ _ _ _ _)
        λ _. bind-Triple _ (read_acl-Frame (IsFirst payload) _) λ _. pure-Frame (IsFirst payload) _

  setup_admin-IsFirst :
      (payload : SetupAdminPayload)
      → Triple
          (OfAcl (λ file. file ≡ none))
          (setup_admin py crypto draw payload)
          (λ _. OfAcl (IsFirst payload))
  unfolding setup_admin
  setup_admin-IsFirst payload =
      bind-Triple _ (read_auth_file-Frame (λ file. file ≡ none) _) λ needed.
        branch-Triple (not needed) (λ _. fail-Triple _ _)
          (λ _.
            bind-Triple _ (catching-Triple (create_admin-IsFirst payload))
              λ token. admin_session-IsFirst payload token)

  -- On a fresh installation, with no access control file yet, `setup_admin` makes an administrator
  -- who has every permission; the user id is not blank.
  pub setup_admin-has_permission :
      (payload : SetupAdminPayload) (permission : String) (s s' : Stores) (d : Fields)
      → s.acl ≡ none
      → is_blank (strip payload.user_id) ≡ false
      → setup_admin py crypto draw payload s ≡ (answer d, s')
      → has_permission py (some (strip payload.user_id)) permission s'.acl ≡ ok true
  setup_admin-has_permission payload permission s s' d fresh given run =
      let written = (setup_admin-IsFirst payload).run s s' d fresh run in
      rw written (has_permission_owner py _ _ _ permission given)
