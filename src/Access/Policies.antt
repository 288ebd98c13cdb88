-- ===== src/Access/Policies.antt =====
-- `upsert_department_permission`: the policy that was stored decides for its department and position.
use patch_machine.Prelude.{
  String, ◌≡◌, refl, Bool, true, false, not, ◌&&◌, ◌||◌, some, List, [], ◌∷◌, ◌++◌, ◌==◌, eq_iff,
  eq_refl, keep, find, any, is_empty, find-append, find-keep-none, if◌then◌else◌, arith, ap, inl,
  inr, find-test,
}
use patch_machine.Python.{Builtins, ok, Result-cases, is_blank}
use patch_machine.Access.Records.{UserRecord, PositionRecord, DepartmentPermissionRecord}
use patch_machine.Access.Defaults.{AclPayload, contains, allowed}
use patch_machine.Access.Store.{
  File, read_payload, write_payload, settle, upsert_department_permission,
}
use patch_machine.Access.Permissions.{
  find_user, find_position, find_policy, resolve_user, effective_permissions, grants,
}
use patch_machine.Access.Documents.{reread}
use patch_machine.Access.Lockout.{read_payload-default_roles}
use mathlib.Core.Path.{subst}

-- The policy as it is stored, and the policies with it.
abbrev normalized : DepartmentPermissionRecord → DepartmentPermissionRecord
normalized policy = record policy { permissions = keep (contains allowed) policy.permissions }

abbrev policies_with :
    DepartmentPermissionRecord → List DepartmentPermissionRecord → List DepartmentPermissionRecord
policies_with policy policies =
    keep
      (λ (q : DepartmentPermissionRecord).
        not (q.department_id == policy.department_id && q.position_id == policy.position_id))
      policies
    ++ normalized policy ∷ []

find_policy-policies_with :
    (policy : DepartmentPermissionRecord) (policies : List DepartmentPermissionRecord)
    → find_policy policy.department_id policy.position_id (policies_with policy policies)
      ≡ some (normalized policy)
unfolding find
find_policy-policies_with policy policies = ground (
  arith,
  find-append
      (λ (q : DepartmentPermissionRecord).
        q.department_id == policy.department_id && q.position_id == policy.position_id)
      (keep
        (λ (q : DepartmentPermissionRecord).
          not (q.department_id == policy.department_id && q.position_id == policy.position_id))
        policies)
      (normalized policy ∷ []),
  find-keep-none
      (λ (q : DepartmentPermissionRecord).
        q.department_id == policy.department_id && q.position_id == policy.position_id)
      (λ (q : DepartmentPermissionRecord).
        not (q.department_id == policy.department_id && q.position_id == policy.position_id))
      policies (λ q e. ap not e),
  eq_refl policy.department_id,
  eq_refl policy.position_id,
)

contains-nil : (x : String) → contains [] x ≡ false
unfolding contains
contains-nil x = refl

contains-cons :
    (y : String) (ys : List String) (x : String) → contains (y ∷ ys) x ≡ (y == x || contains ys x)
unfolding contains
contains-cons y ys x = refl

contains-keep :
    (xs ys : List String) (x : String)
    → contains (keep (contains ys) xs) x ≡ (contains ys x && contains xs x)
unfolding keep
contains-keep [] ys x = ground (arith, contains-nil x)
contains-keep (z ∷ zs) ys x = ground (
  arith,
  contains-keep zs ys x,
  eq_iff z x,
  contains-cons z zs x,
  contains-cons z (keep (contains ys) zs) x,
)

star_allowed : contains allowed "*" ≡ true
unfolding contains
star_allowed = refl

empty_permissions :
    (xs : List String) (x : String)
    → (if is_empty xs then false else contains xs "*" || contains xs x)
      ≡ (contains xs "*" || contains xs x)
empty_permissions [] x = ground (arith, contains-nil x, contains-nil "*")
empty_permissions (y ∷ ys) x = refl

-- The permissions of a user whose position has a policy.
effective-policy :
    (p : AclPayload) (u : UserRecord) (q : PositionRecord) (r : DepartmentPermissionRecord)
    → find_position u.position_id p.positions ≡ some q
    → find_policy u.department q.id p.department_permissions ≡ some r
    → effective_permissions p u ≡ r.permissions
unfolding effective_permissions
effective-policy p u q r a b = ground (arith, a, b)

grants-effective :
    (p : AclPayload) (id : String) (u : UserRecord) (permission : String)
    → find_user id p.users ≡ some u
    → is_blank id ≡ false
    → u.active ≡ true
    → grants p (some id) permission ≡ (
        contains (effective_permissions p u) "*" || contains (effective_permissions p u) permission)
unfolding grants
grants-effective p id u permission found named active =
    let resolved : resolve_user p (some id) ≡ some u =
      unfold resolve_user in ground (arith, found, named) in
    rw (resolved, grants) (simp active (empty_permissions (effective_permissions p u) permission))

any-is_empty {ℓ} :
    {A : Type ℓ} (test : A → Bool) (xs : List A) → any test xs ≡ true → is_empty xs ≡ false
unfolding any
any-is_empty test [] h = ground (arith, h)
any-is_empty test (x ∷ xs) h = refl

module _ (py : Builtins) where
  settle-policies :
      (p : AclPayload)
      → is_empty p.roles ≡ false
      → (settle py p).department_permissions ≡ p.department_permissions
  unfolding settle
  settle-policies p h = rw h

  roles_of_read :
      (file : File) (p : AclPayload) → read_payload py file ≡ ok p → is_empty p.roles ≡ false
  roles_of_read file p got =
      any-is_empty _ p.roles
        (read_payload-default_roles py "owner" file p (unfold contains in refl) got)

  -- The policies of the payload that is read after `upsert_department_permission`.
  policies_after :
      (policy : DepartmentPermissionRecord) (file file' : File) (q : AclPayload)
      → upsert_department_permission py policy file ≡ ok file'
      → read_payload py file' ≡ ok q
      → find_policy policy.department_id policy.position_id q.department_permissions
        ≡ some (normalized policy)
  unfolding upsert_department_permission
  policies_after policy file file' q h got = elim (Result-cases (read_payload py file)) [
    | inl (e, failed) ↦ absurd (ground (arith, failed, h))
    | inr (p, read) ↦
        let p' = record p {
          department_permissions = policies_with policy p.department_permissions;
        } in
        let written : file' ≡ write_payload p' = ground (arith, read, h) in
        let (r, settled, roles, _, _, policies) =
          reread py p' q (subst (λ (f : File). read_payload py f ≡ ok q) written got) in
        let full : is_empty r.roles ≡ false = rw roles (roles_of_read file p read) in
        rw (settled, settle-policies r full, policies)
          (find_policy-policies_with policy p.department_permissions)
  ]

  -- After `upsert_department_permission` an active user of that department and position, where the
  -- position exists, has exactly the permissions of the policy that are known ones or "*".
  pub grants-upsert_department_permission :
      (policy : DepartmentPermissionRecord) (file file' : File) (q : AclPayload)
      (id permission : String) (u : UserRecord) (position : PositionRecord)
      → upsert_department_permission py policy file ≡ ok file'
      → read_payload py file' ≡ ok q
      → find_user id q.users ≡ some u
      → is_blank id ≡ false
      → u.active ≡ true
      → u.department ≡ policy.department_id
      → u.position_id ≡ policy.position_id
      → find_position policy.position_id q.positions ≡ some position
      → grants q (some id) permission ≡ (
          contains policy.permissions "*"
          || contains allowed permission && contains policy.permissions permission)
  grants-upsert_department_permission policy file file' q id permission u position h got found named
        active d e g =
      let stored = policies_after policy file file' q h got in
      let same_id : position.id ≡ policy.position_id =
        (eq_iff position.id policy.position_id).0
          (find-test (λ (x : PositionRecord). x.id == policy.position_id) q.positions g) in
      let effective : effective_permissions q u ≡ (normalized policy).permissions =
        effective-policy q u position (normalized policy) (rw e g) (rw (d, same_id) stored) in
      rw (
        grants-effective q id u permission found named active,
        effective,
        contains-keep policy.permissions allowed "*",
        contains-keep policy.permissions allowed permission,
        star_allowed,
      )
