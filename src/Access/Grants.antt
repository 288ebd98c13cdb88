-- ===== src/Access/Grants.antt =====
-- What `has_permission` grants, against a description by precedence: the policy of the user's
-- department and position, else the position, else the role.
use patch_machine.Prelude.{
  String, ◌≡◌, ◌↔◌, ◌⊎◌, refl, true, false, ◌||◌, none, some, List, [], ◌∷◌, any, is_empty,
  if◌then◌else◌, arith, Bool-cases, Option-cases, inl, inr,
}
use patch_machine.Python.{is_blank}
use patch_machine.Access.Records.{
  RoleRecord, UserRecord, PositionRecord, DepartmentPermissionRecord,
}
use patch_machine.Access.Defaults.{AclPayload, contains}
use patch_machine.Access.Permissions.{
  role_permissions, find_user, find_role, find_position, find_policy, resolve_user,
  effective_permissions, grants,
}

-- The position decides nothing: there is none, or it has no permissions of its own and no policy.
abbrev NoPosition : AclPayload → UserRecord → Type 0
NoPosition p u =
    (find_position u.position_id p.positions ≡ none)
    ⊎ ((q : PositionRecord) × (find_position u.position_id p.positions ≡ some q)
        × (find_policy u.department q.id p.department_permissions ≡ none)
        × (is_empty q.permissions ≡ true))

-- Where the permissions of a user come from.
pub data Source (p : AclPayload) (u : UserRecord) (permissions : List String) : Type 0 where
  by_policy :
      (q : PositionRecord) (r : DepartmentPermissionRecord)
      → find_position u.position_id p.positions ≡ some q
      → find_policy u.department q.id p.department_permissions ≡ some r
      → permissions ≡ r.permissions
      → Source p u permissions
  by_position :
      (q : PositionRecord)
      → find_position u.position_id p.positions ≡ some q
      → find_policy u.department q.id p.department_permissions ≡ none
      → is_empty q.permissions ≡ false
      → permissions ≡ q.permissions
      → Source p u permissions
  by_role :
      (r : RoleRecord)
      → NoPosition p u
      → find_role u.role_id p.roles ≡ some r
      → permissions ≡ r.permissions
      → Source p u permissions

abbrev pub Granted : AclPayload → String → String → Type 0
Granted p id permission =
    (u : UserRecord) × (find_user id p.users ≡ some u)
    × (is_blank id ≡ false)
    × (u.active ≡ true)
    × ((permissions : List String) × Source p u permissions
        × ((contains permissions "*" || contains permissions permission) ≡ true))

effective-role :
    (p : AclPayload) (u : UserRecord)
    → NoPosition p u
    → effective_permissions p u ≡ role_permissions (find_role u.role_id p.roles)
unfolding effective_permissions
effective-role p u (inl a) = ground (arith, a)
effective-role p u (inr (q, a, b, c)) = ground (arith, a, b, c)

effective-of_Source :
    (p : AclPayload) (u : UserRecord) (permissions : List String)
    → Source p u permissions
    → effective_permissions p u ≡ permissions
unfolding effective_permissions
effective-of_Source p u permissions (by_policy q r a b e) = ground (arith, a, b, e)
effective-of_Source p u permissions (by_position q a b c e) = ground (arith, a, b, c, e)
effective-of_Source p u permissions (by_role r n a e) = cc (effective-role p u n, a, e)

role-Source :
    (p : AclPayload) (u : UserRecord)
    → NoPosition p u
    → is_empty (effective_permissions p u) ≡ false
    → Source p u (effective_permissions p u)
role-Source p u n h = elim (Option-cases (find_role u.role_id p.roles)) [
  | inl e ↦ absurd (ground (arith, h, e, effective-role p u n))
  | inr (r, e) ↦ by_role r n e (ground (arith, e, effective-role p u n))
]

effective-Source :
    (p : AclPayload) (u : UserRecord)
    → is_empty (effective_permissions p u) ≡ false
    → Source p u (effective_permissions p u)
effective-Source p u h = elim (Option-cases (find_position u.position_id p.positions)) [
  | inl a ↦ role-Source p u (inl a) h
  | inr (q, a) ↦ elim (Option-cases (find_policy u.department q.id p.department_permissions)) [
    | inr (r, b) ↦ by_policy q r a b (unfold effective_permissions in ground (arith, a, b))
    | inl b ↦ elim (Bool-cases (is_empty q.permissions)) [
      | inl c ↦ role-Source p u (inr (q, a, b, c)) h
      | inr c ↦ by_position q a b c (unfold effective_permissions in ground (arith, a, b, c))
    ]
  ]
]

resolve_user-some :
    (p : AclPayload) (id : String)
    → resolve_user p (some id) ≡ (if is_blank id then none else find_user id p.users)
unfolding resolve_user
resolve_user-some p id = refl

pub nonempty :
    (xs : List String) (x : String)
    → (contains xs "*" || contains xs x) ≡ true
    → is_empty xs ≡ false
unfolding contains any
nonempty [] x h = ground (arith, h)
nonempty (y ∷ ys) x h = refl

grants_sound :
    (p : AclPayload) (id permission : String)
    → grants p (some id) permission ≡ true
    → Granted p id permission
unfolding grants
grants_sound p id permission h = elim (Option-cases (resolve_user p (some id))) [
  | inl e ↦ absurd (ground (arith, e, h))
  | inr (u, e) ↦
      let found = resolve_user-some p id in
      (
        u,
        ground (arith, e, found),
        ground (arith, e, found),
        ground (arith, e, h),
        (
          effective_permissions p u,
          effective-Source p u (ground (arith, e, h)),
          ground (arith, e, h),
        ),
      )
]

grants_complete :
    (p : AclPayload) (id permission : String)
    → Granted p id permission
    → grants p (some id) permission ≡ true
unfolding grants
grants_complete p id permission (u, found, named, active, (permissions, source, holds)) =
    let resolved : resolve_user p (some id) ≡ some u =
      ground (arith, found, named, resolve_user-some p id) in
    let same = effective-of_Source p u permissions source in
    rw (resolved, grants)
      (rw same (ground (arith, active, holds, nonempty permissions permission holds)))

-- `has_permission` answers yes exactly when the user is found, is active, and the deciding source,
-- by precedence, lists the permission or "*".
pub grants_iff :
    (p : AclPayload) (id permission : String)
    → (grants p (some id) permission ≡ true) ↔ Granted p id permission
grants_iff p id permission = (grants_sound p id permission, grants_complete p id permission)
