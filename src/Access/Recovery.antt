-- ===== src/Access/Recovery.antt =====
-- Whom `has_permission` of negotium/archive/access_control.py gives `admin:users` where a role with it is
-- held: only roles are tested by the lockout recovery of a read, and by the guard of the admin routes.
use patch_machine.Prelude.{
  String, ◌≡◌, ◌≢◌, refl, true, false, not, ◌&&◌, none, some, List, [], ◌∷◌, map, ◌==◌, eq_iff,
  keep, any, is_empty, arith,
}
use patch_machine.Python.{Builtins, ok, is_blank}
use patch_machine.Access.Records.{RoleRecord, UserRecord}
use patch_machine.Access.Defaults.{
  AclPayload, contains, has_active_admin_user, is_admin_role, add_missing_roles, default_payload,
  normalize_user,
}
use patch_machine.Access.Store.{read_payload, write_payload, settle, recover_owner}
use patch_machine.Access.Permissions.{find_user, grants, has_permission}
use patch_machine.Access.Documents.{stored, stored_user, reread}
use patch_machine.Access.Distinct.{any-found, any_mono, any-map_mono}
use patch_machine.Access.Lockout.{
  admin_with, contains-admin_ids, any-add_missing_roles, settle-has_active_admin_user,
}
use patch_machine.Access.Deciding.{roles_decide, grants-has_active_admin_user}

admin_role-present :
    (users : List UserRecord) (roles : List RoleRecord)
    → has_active_admin_user users roles ≡ true
    → is_empty roles ≡ false
unfolding has_active_admin_user any
admin_role-present users [] h =
    let (u, _, holds) = any-found (λ (u : UserRecord). u.active && contains [] u.role_id) users h in
    absurd (unfold contains in ground (arith, holds))
admin_role-present users (r ∷ rs) h = refl

-- More roles make no administrator less.
more_roles :
    (users : List UserRecord) (roles ds : List RoleRecord)
    → has_active_admin_user users roles ≡ true
    → has_active_admin_user users (add_missing_roles roles ds) ≡ true
unfolding has_active_admin_user
more_roles users roles ds h =
    any_mono
      (λ (u : UserRecord).
        u.active && contains (map (λ r. r.id) (keep is_admin_role roles)) u.role_id)
      _ users
      (λ u holds. ground (
        arith,
        holds,
        contains-admin_ids u.role_id roles,
        contains-admin_ids u.role_id (add_missing_roles roles ds),
        any-add_missing_roles (admin_with u.role_id) ds roles,
      ))
      h

-- What reading does to users keeps an administrator, since no role has a blank id.
stored-has_active_admin_user :
    (users : List UserRecord) (roles : List RoleRecord)
    → any (λ (r : RoleRecord). is_blank r.id) roles ≡ false
    → has_active_admin_user users roles ≡ true
    → has_active_admin_user (map (λ u. normalize_user (stored_user u)) users) roles ≡ true
unfolding has_active_admin_user
stored-has_active_admin_user users roles filled h =
    let ids = map (λ (r : RoleRecord). r.id) (keep is_admin_role roles) in
    let blank : any (admin_with "") roles ≡ true
        → any (λ (r : RoleRecord). is_blank r.id) roles ≡ true =
      any_mono (admin_with "") (λ (r : RoleRecord). is_blank r.id) roles
        (λ r holds. rw ((eq_iff r.id "").0 (ground (arith, holds))) refl) in
    let none_blank : contains ids "" ≡ false =
      ground (arith, contains-admin_ids "" roles, filled, blank) in
    any-map_mono (λ (u : UserRecord). u.active && contains ids u.role_id) _ _ users
      (λ u holds.
        unfold normalize_user stored_user in ground (arith, holds, none_blank, eq_iff u.role_id ""))
      h

module _ (py : Builtins) where
  -- A payload that was written with an administrator is read with one.
  reread-has_active_admin_user :
      (p q : AclPayload)
      → read_payload py (write_payload p) ≡ ok q
      → has_active_admin_user p.users p.roles ≡ true
      → any (λ (r : RoleRecord). is_blank r.id) q.roles ≡ false
      → has_active_admin_user q.users q.roles ≡ true
  unfolding settle stored
  reread-has_active_admin_user p q got h filled =
      let (r, settled, roles, users, _, _) = reread py p q got in
      let given : is_empty r.roles ≡ false = rw roles (admin_role-present p.users p.roles h) in
      let all_roles : q.roles ≡ add_missing_roles r.roles default_payload.roles =
        rw (settled, given) refl in
      let filled' : any (λ (x : RoleRecord). is_blank x.id) p.roles ≡ false = ground (
        arith,
        rw all_roles at filled,
        roles,
        any-add_missing_roles (λ (x : RoleRecord). is_blank x.id) default_payload.roles r.roles,
      ) in
      let before : has_active_admin_user r.users r.roles ≡ true =
        rw (users, roles) (stored-has_active_admin_user p.users p.roles filled' h) in
      let after = more_roles r.users r.roles default_payload.roles before in
      rw (settled, given) (unfold recover_owner in rw after after)

  -- After the guard's own test has passed, somebody may administer, if the file is read and the roles
  -- decide in what is read.
  pub has_permission-write_payload :
      (p q : AclPayload)
      → has_active_admin_user p.users p.roles ≡ true
      → read_payload py (write_payload p) ≡ ok q
      → roles_decide q ≡ true
      → (user_id : String) × (has_permission py (some user_id) "admin:users" (write_payload p)
          ≡ ok true)
  unfolding has_permission
  has_permission-write_payload p q h got decide =
      let filled : any (λ (r : RoleRecord). is_blank r.id) q.roles ≡ false =
        unfold roles_decide in ground (arith, decide) in
      let (user_id, granted) =
        grants-has_active_admin_user q decide (reread-has_active_admin_user p q got h filled) in
      (user_id, rw (got, granted) refl)

  -- The recovery of a read lets somebody in again: if the file has a role and a user "owner", no role
  -- "owner" that lacks `admin:users`, and in what is read the roles decide (ids are distinct and not
  -- blank, and no active user with an administrator's role has a position with permissions or with a
  -- policy, which would come before the role), then somebody has `admin:users`.
  pub settle-grants :
      (p : AclPayload)
      → is_empty p.roles ≡ false
      → any (λ (r : RoleRecord). r.id == "owner" && not (is_admin_role r)) p.roles ≡ false
      → find_user "owner" p.users ≢ none
      → roles_decide (settle py p) ≡ true
      → (user_id : String) × (grants (settle py p) (some user_id) "admin:users" ≡ true)
  settle-grants p given lawful owner decide =
      grants-has_active_admin_user (settle py p) decide
        (settle-has_active_admin_user py p given lawful owner)
