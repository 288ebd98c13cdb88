-- ===== src/Access/Deciding.antt =====
-- Whom `has_permission` of negotium/archive/access_control.py gives `admin:users` where the roles decide.
use patch_machine.Prelude.{
  String, ◌≡◌, Bool, true, false, not, ◌&&◌, none, some, List, [], ◌∷◌, map, eq_iff, keep, find,
  any, is_empty, Option-cases, ap, ◌∙◌, arith, Bool-cases, inl, inr,
}
use patch_machine.Python.{is_blank}
use patch_machine.Access.Records.{RoleRecord, UserRecord}
use patch_machine.Access.Defaults.{AclPayload, contains, has_active_admin_user, is_admin_role}
use patch_machine.Access.Permissions.{
  find_user, find_role, find_position, find_policy, role_permissions, resolve_user,
  effective_permissions, grants,
}
use patch_machine.Access.Distinct.{any-found, distinct, find-distinct}
use patch_machine.Access.Grants.{nonempty}
use patch_machine.Access.Lockout.{admin_with, contains-admin_ids}

-- The position of the user decides nothing: it is none of the positions, or one that has no
-- permissions and, in the user's department, no policy.
unfoldable pub is_unplaced : AclPayload → UserRecord → Bool
unfolding find
is_unplaced p u = elim (find_position u.position_id p.positions) [
  | none ↦ true
  | some q ↦ elim (find_policy u.department q.id p.department_permissions) [
    | none ↦ is_empty q.permissions
    | some r ↦ false
  ]
]

-- An active user whose role is an administrator's.
abbrev is_administrator : AclPayload → UserRecord → Bool
is_administrator p u =
    u.active && contains (map (λ (r : RoleRecord). r.id) (keep is_admin_role p.roles)) u.role_id

-- The roles decide who administers: ids are distinct and not blank, and no active user with an
-- administrator's role has a position that decides.
unfoldable pub roles_decide : AclPayload → Bool
unfolding distinct any keep contains is_admin_role is_unplaced
roles_decide p =
    distinct (λ (u : UserRecord). u.id) p.users
    && distinct (λ (r : RoleRecord). r.id) p.roles
    && not (any (λ (u : UserRecord). is_blank u.id) p.users)
    && not (any (λ (r : RoleRecord). is_blank r.id) p.roles)
    && not (any (λ (u : UserRecord). is_administrator p u && not (is_unplaced p u)) p.users)

effective-unplaced :
    (p : AclPayload) (u : UserRecord)
    → is_unplaced p u ≡ true
    → effective_permissions p u ≡ role_permissions (find_role u.role_id p.roles)
unfolding effective_permissions is_unplaced
effective-unplaced p u h = elim (Option-cases (find_position u.position_id p.positions)) [
  | inl a ↦ ground (arith, a)
  | inr (q, a) ↦ elim (Option-cases (find_policy u.department q.id p.department_permissions)) [
    | inl b ↦ ground (arith, h, a, b)
    | inr (r, b) ↦ absurd (ground (arith, h, a, b))
  ]
]

found-test :
    {A : Type 0} (test other : A → Bool) (xs : List A) (x : A)
    → any other xs ≡ false
    → find test xs ≡ some x
    → other x ≡ false
unfolding any find
found-test test other [] x h found = absurd (ground (arith, found))
found-test test other (y ∷ ys) x h found = elim (Bool-cases (test y)) [
  | inl holds ↦ let same : y ≡ x = ground (arith, found, holds) in rw (← same) (ground (arith, h))
  | inr fails ↦ found-test test other ys x (ground (arith, h)) (ground (arith, found, fails))
]

grants_admin :
    (p : AclPayload) (u : UserRecord) (r : RoleRecord)
    → find_user u.id p.users ≡ some u
    → is_blank u.id ≡ false
    → find_role u.role_id p.roles ≡ some r
    → u.active ≡ true
    → is_admin_role r ≡ true
    → is_unplaced p u ≡ true
    → grants p (some u.id) "admin:users" ≡ true
unfolding grants is_admin_role
grants_admin p u r found named role active is_admin free =
    let resolved : resolve_user p (some u.id) ≡ some u =
      unfold resolve_user in ground (arith, found, named) in
    let same : effective_permissions p u ≡ r.permissions =
      effective-unplaced p u free ∙ ap role_permissions role in
    rw (resolved, grants)
      (rw same (ground (arith, active, is_admin, nonempty r.permissions "admin:users" is_admin)))

-- An active user with an administrator's role may administer, if the roles decide.
pub grants-has_active_admin_user :
    (p : AclPayload)
    → roles_decide p ≡ true
    → has_active_admin_user p.users p.roles ≡ true
    → (user_id : String) × (grants p (some user_id) "admin:users" ≡ true)
unfolding roles_decide has_active_admin_user
grants-has_active_admin_user p decide h =
    let admin_ids = map (λ (r : RoleRecord). r.id) (keep is_admin_role p.roles) in
    let test : UserRecord → Bool = λ u. u.active && contains admin_ids u.role_id in
    let (u, found, holds) = any-found test p.users h in
    let held : any (admin_with u.role_id) p.roles ≡ true =
      ground (arith, holds, contains-admin_ids u.role_id p.roles) in
    let (r, role, is_admin) = any-found (admin_with u.role_id) p.roles held in
    let by_id =
      find-distinct (λ (x : UserRecord). x.id) test p.users u (ground (arith, decide)) found in
    let role_by_id =
      find-distinct (λ (x : RoleRecord). x.id) (admin_with u.role_id) p.roles r
        (ground (arith, decide)) role in
    let same : r.id ≡ u.role_id = (eq_iff r.id u.role_id).0 (ground (arith, is_admin)) in
    let own : find_role u.role_id p.roles ≡ some r = rw same at role_by_id in
    let named =
      found-test test (λ (x : UserRecord). is_blank x.id) p.users u (ground (arith, decide))
        found in
    let free =
      found-test test (λ (x : UserRecord). test x && not (is_unplaced p x)) p.users u
        (ground (arith, decide)) found in
    (
      u.id,
      grants_admin p u r by_id named own (ground (arith, holds)) (ground (arith, is_admin))
          (ground (arith, free, holds)),
    )
