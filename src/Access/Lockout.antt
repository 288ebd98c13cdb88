-- ===== src/Access/Lockout.antt =====
-- The default roles of every read, and the lockout recovery of `_read_payload`.
use patch_machine.Prelude.{
  String, ◌≡◌, ◌≢◌, refl, Bool, true, false, not, ◌&&◌, none, some, List, [], ◌∷◌, map, ◌==◌,
  eq_iff, eq_refl, keep, find, any, is_empty, any-append, if◌then◌else◌, arith, Bool-cases, inl,
  inr,
}
use patch_machine.Python.{Builtins, ok, bind_ok, ok-injective, null}
use patch_machine.Access.Records.{RoleRecord, UserRecord}
use patch_machine.Access.Defaults.{
  AclPayload, contains, restore_default_owner, has_active_admin_user, is_admin_role, add_role,
  add_missing_roles, default_payload, owner_role, manager_role, staff_role, viewer_role,
}
use patch_machine.Access.Store.{File, read_payload, parse_payload, settle, recover_owner}
use patch_machine.Access.Permissions.{find_user}

module _ (test : RoleRecord → Bool) where
  any-add_role :
      (roles : List RoleRecord) (d : RoleRecord)
      → any test roles ≡ true
      → any test (add_role roles d) ≡ true
  unfolding add_role
  any-add_role roles d h = ground (arith, h, any-append test roles (d ∷ []))

  pub any-add_missing_roles :
      (ds roles : List RoleRecord)
      → any test roles ≡ true
      → any test (add_missing_roles roles ds) ≡ true
  unfolding add_missing_roles
  any-add_missing_roles [] roles h = h
  any-add_missing_roles (d ∷ ds) roles h =
      any-add_missing_roles ds (add_role roles d) (any-add_role roles d h)

abbrev has_id : String → RoleRecord → Bool
has_id id r = r.id == id

any-add_role_self :
    (roles : List RoleRecord) (d : RoleRecord) → any (has_id d.id) (add_role roles d) ≡ true
unfolding add_role any
any-add_role_self roles d = ground (arith, any-append (has_id d.id) roles (d ∷ []), eq_refl d.id)

-- A role of the second list is never missing from the result.
any-add_missing_roles_new :
    (id : String) (ds roles : List RoleRecord)
    → any (has_id id) ds ≡ true
    → any (has_id id) (add_missing_roles roles ds) ≡ true
unfolding add_missing_roles any
any-add_missing_roles_new id [] roles h = absurd (ground arith)
any-add_missing_roles_new id (d ∷ ds) roles h = elim (Bool-cases (d.id == id)) [
  | inl b ↦
      let same : d.id ≡ id = (eq_iff d.id id).0 b in
      any-add_missing_roles (has_id id) ds (add_role roles d)
        (rw (← same) (any-add_role_self roles d))
  | inr b ↦ any-add_missing_roles_new id ds (add_role roles d) (ground (arith, h, b))
]

-- An administrator role with the id, if no role with the id lacks the permission.
abbrev pub admin_with : String → RoleRecord → Bool
admin_with id r = is_admin_role r && r.id == id

admin-present :
    (id : String) (roles : List RoleRecord)
    → any (λ r. r.id == id && not (is_admin_role r)) roles ≡ false
    → any (has_id id) roles ≡ true
    → any (admin_with id) roles ≡ true
unfolding any
admin-present id [] h k = k
admin-present id (r ∷ rs) h k = ground (arith, h, k, admin-present id rs)

admin-added :
    (roles : List RoleRecord)
    → any (has_id "owner") roles ≡ false
    → any (admin_with "owner") (add_role roles owner_role) ≡ true
unfolding add_role any is_admin_role contains
admin-added roles h = ground (arith, h, any-append (admin_with "owner") roles (owner_role ∷ []))

pub contains-admin_ids :
    (id : String) (roles : List RoleRecord)
    → contains (map (λ r. r.id) (keep is_admin_role roles)) id ≡ any (admin_with id) roles
unfolding contains any keep
contains-admin_ids id [] = refl
contains-admin_ids id (r ∷ rs) = ground (arith, contains-admin_ids id rs)

active_admin :
    (ids : List String) (users : List UserRecord)
    → contains ids "owner" ≡ true
    → find_user "owner" users ≢ none
    → any
        (λ (user : UserRecord). user.active && contains ids user.role_id)
        (map (λ (u : UserRecord). if u.id == "owner" then restore_default_owner u else u) users)
      ≡ true
unfolding any find restore_default_owner
active_admin ids [] h k = absurd (k refl)
active_admin ids (u ∷ us) h k = ground (arith, h, k, active_admin ids us h)

abbrev pub default_role_ids : List String
default_role_ids = "owner" ∷ "manager" ∷ "staff" ∷ "viewer" ∷ []

defaults-present :
    (id : String)
    → contains default_role_ids id ≡ true
    → any (has_id id) default_payload.roles ≡ true
unfolding contains any
defaults-present id h = ground (arith, h)

recover_owner-has_active_admin_user :
    (users : List UserRecord) (roles : List RoleRecord)
    → any (admin_with "owner") roles ≡ true
    → find_user "owner" users ≢ none
    → has_active_admin_user (recover_owner users roles) roles ≡ true
unfolding recover_owner
recover_owner-has_active_admin_user users roles h k =
    elim (Bool-cases (has_active_admin_user users roles)) [
      | inl b ↦ rw b b
      | inr b ↦ rw b (
          unfold has_active_admin_user in
          active_admin (map (λ r. r.id) (keep is_admin_role roles)) users (rw contains-admin_ids h)
            k)
    ]

module _ (py : Builtins) where
  settle-default_roles :
      (id : String) (p : AclPayload)
      → contains default_role_ids id ≡ true
      → any (λ (r : RoleRecord). r.id == id) (settle py p).roles ≡ true
  unfolding settle
  settle-default_roles id p h = elim (Bool-cases (is_empty p.roles)) [
    | inl b ↦ rw b (defaults-present id h)
    | inr b ↦
        rw b (any-add_missing_roles_new id default_payload.roles p.roles (defaults-present id h))
  ]

  -- Every read that succeeds returns the four default roles, whatever the file holds.
  pub read_payload-default_roles :
      (id : String) (file : File) (p : AclPayload)
      → contains default_role_ids id ≡ true
      → read_payload py file ≡ ok p
      → any (λ (r : RoleRecord). r.id == id) p.roles ≡ true
  unfolding read_payload
  read_payload-default_roles id none p h got = rw (← ok-injective got) (defaults-present id h)
  read_payload-default_roles id (some null) p h got =
      rw (← ok-injective got) (defaults-present id h)
  read_payload-default_roles id (some v) p h got =
      let (q, _, settled) = bind_ok (parse_payload py v) (λ q. ok (settle py q)) got in
      rw (← ok-injective settled) (settle-default_roles id q h)

  owner-is_admin :
      (p : AclPayload)
      → any (λ (r : RoleRecord). r.id == "owner" && not (is_admin_role r)) p.roles ≡ false
      → any (admin_with "owner") (add_missing_roles p.roles default_payload.roles) ≡ true
  unfolding add_missing_roles
  owner-is_admin p h = elim (Bool-cases (any (has_id "owner") p.roles)) [
    | inl b ↦
        any-add_missing_roles (admin_with "owner") default_payload.roles p.roles
          (admin-present "owner" p.roles h b)
    | inr b ↦
        any-add_missing_roles (admin_with "owner") (manager_role ∷ staff_role ∷ viewer_role ∷ [])
          (add_role p.roles owner_role) (admin-added p.roles b)
  ]

  -- After a read of a file with a role there is an active user with an administrator's role, if the
  -- file has a user "owner" and no role "owner" that lacks `admin:users`.
  pub settle-has_active_admin_user :
      (p : AclPayload)
      → is_empty p.roles ≡ false
      → any (λ (r : RoleRecord). r.id == "owner" && not (is_admin_role r)) p.roles ≡ false
      → find_user "owner" p.users ≢ none
      → has_active_admin_user (settle py p).users (settle py p).roles ≡ true
  unfolding settle
  settle-has_active_admin_user p e h k = rw e (
      recover_owner-has_active_admin_user p.users (add_missing_roles p.roles default_payload.roles)
        (owner-is_admin p h) k)
