-- ===== src/Access/Documents.antt =====
-- Writing the payload of negotium/archive/access_control.py and reading it back.
use patch_machine.Prelude.{◌≡◌, refl, ap, ◌∙◌, List, [], ◌∷◌, ◌==◌, map, if◌then◌else◌, arith, some}
use patch_machine.Prelude.Int.{ℤ}
use patch_machine.Python.{
  int, obj, Builtins, get, str_or-empty, str_or-str, int_or_zero-int, strings_or_empty-strings,
  to_list-of_list, traverse, ok, ◌>>=◌, as_dict, iterate_or_empty, bool_or_true, bind_ok,
  bool_or_false, str_or, records, records-dicts, map_self,
}
use patch_machine.Access.Records.{
  RoleRecord, UserRecord, DepartmentRecord, PositionRecord, DepartmentPermissionRecord,
  role_to_dict, user_to_dict, department_to_dict, position_to_dict, policy_to_dict, role_of,
  user_of, department_of, position_of, policy_of, coerce_int,
}
use patch_machine.Access.Defaults.{AclPayload, normalize_user}
use patch_machine.Access.Store.{write_payload, read_payload, parse_payload, settle, rendered}

-- `int(float(str(i)))` gives `i` back.
abbrev pub IsExact : Builtins → ℤ → Type 0
IsExact py i = py.int_float (py.repr (int i)) ≡ ok i

abbrev pub AllExact : Builtins → List PositionRecord → Type 0
AllExact py [] = Unit
AllExact py (p ∷ ps) = (IsExact py p.level × IsExact py p.display_order) × AllExact py ps

-- A user with no role is read back as a viewer.
unfoldable pub stored_user : UserRecord → UserRecord
stored_user u = record u { role_id = if u.role_id == "" then "viewer" else u.role_id }

-- The explicit role of a position is not written.
unfoldable pub stored_position : PositionRecord → PositionRecord
stored_position p = record p { permission_role_id = "" }

unfoldable pub stored : AclPayload → AclPayload
stored p = record {
  roles = p.roles;
  users = map (λ u. normalize_user (stored_user u)) p.users;
  departments = p.departments;
  positions = map stored_position p.positions;
  department_permissions = p.department_permissions;
}

module _ (py : Builtins) where
  role_of-to_dict : (r : RoleRecord) → role_of py (role_to_dict r) ≡ ok r
  unfolding role_of role_to_dict get
  role_of-to_dict r = simp (str_or-empty, int_or_zero-int, strings_or_empty-strings)

  user_of-to_dict : (u : UserRecord) → user_of py (user_to_dict u) ≡ stored_user u
  unfolding user_of user_to_dict get stored_user bool_or_true
  user_of-to_dict u = simp (str_or-empty, str_or-str)

  department_of-to_dict : (d : DepartmentRecord) → department_of py (department_to_dict d) ≡ d
  unfolding department_of department_to_dict get
  department_of-to_dict d = simp str_or-empty

  policy_of-to_dict : (p : DepartmentPermissionRecord) → policy_of py (policy_to_dict p) ≡ ok p
  unfolding policy_of policy_to_dict get
  policy_of-to_dict p = simp (str_or-empty, strings_or_empty-strings)

  coerce_int-int : (i d : ℤ) → IsExact py i → coerce_int py (some (int i)) d ≡ ok i
  unfolding coerce_int
  coerce_int-int i d h = rw h

  position_of-to_dict :
      (p : PositionRecord)
      → IsExact py p.level
      → IsExact py p.display_order
      → position_of py (position_to_dict p) ≡ ok (stored_position p)
  unfolding position_of position_to_dict get stored_position bool_or_false str_or
  position_of-to_dict p h k = simp (str_or-empty, strings_or_empty-strings, h, k)

module _ (py : Builtins) where
  traverse-positions :
      (ps : List PositionRecord)
      → AllExact py ps
      → traverse
          (λ entry. do d ← as_dict entry; position_of py d)
          (map (λ p. obj (position_to_dict p)) ps)
        ≡ ok (map stored_position ps)
  unfolding as_dict traverse
  traverse-positions [] h = refl
  traverse-positions (p ∷ ps) h =
      cc (position_of-to_dict py p (h.0).0 (h.0).1, traverse-positions ps h.1)

  records-positions :
      (p : AclPayload)
      → AllExact py p.positions
      → records (position_of py) "positions" (rendered p) ≡ ok (map stored_position p.positions)
  unfolding rendered get iterate_or_empty
  records-positions p h = rw to_list-of_list (traverse-positions p.positions h)

  roles-rendered : (p : AclPayload) → records (role_of py) "roles" (rendered p) ≡ ok p.roles
  unfolding rendered get
  roles-rendered p =
      records-dicts role_to_dict (role_of py) (λ r. r) "roles" (rendered p) p.roles refl
        (role_of-to_dict py)
      ∙ ap ok (map_self p.roles)

  users-rendered :
      (p : AclPayload)
      → records (λ d. ok (normalize_user (user_of py d))) "users" (rendered p) ≡ ok (stored p).users
  unfolding rendered get stored
  users-rendered p =
      records-dicts user_to_dict (λ d. ok (normalize_user (user_of py d)))
        (λ u. normalize_user (stored_user u)) "users" (rendered p) p.users refl
        (λ u. ap (λ v. ok (normalize_user v)) (user_of-to_dict py u))

  departments-rendered :
      (p : AclPayload)
      → records (λ d. ok (department_of py d)) "departments" (rendered p) ≡ ok p.departments
  unfolding rendered get
  departments-rendered p =
      records-dicts department_to_dict (λ d. ok (department_of py d)) (λ d. d) "departments"
        (rendered p) p.departments refl (λ d. ap ok (department_of-to_dict py d))
      ∙ ap ok (map_self p.departments)

  policies-rendered :
      (p : AclPayload)
      → records (policy_of py) "department_permissions" (rendered p) ≡ ok p.department_permissions
  unfolding rendered get
  policies-rendered p =
      records-dicts policy_to_dict (policy_of py) (λ d. d) "department_permissions" (rendered p)
        p.department_permissions refl (policy_of-to_dict py)
      ∙ ap ok (map_self p.department_permissions)

  parse-rendered :
      (p : AclPayload)
      → AllExact py p.positions
      → parse_payload py (obj (rendered p)) ≡ ok (stored p)
  unfolding parse_payload as_dict stored
  parse-rendered p h = rw (
    roles-rendered p,
    users-rendered p,
    departments-rendered p,
    records-positions p h,
    policies-rendered p,
  )

  -- Whatever the positions read as, the other lists come back.
  pub parse-rendered_parts :
      (p q : AclPayload)
      → parse_payload py (obj (rendered p)) ≡ ok q
      → (q.roles ≡ p.roles)
        × (q.users ≡ (stored p).users)
        × (q.departments ≡ p.departments)
        × (q.department_permissions ≡ p.department_permissions)
  unfolding parse_payload as_dict stored
  parse-rendered_parts p q h =
      let e =
        rw (roles-rendered p, users-rendered p, departments-rendered p, policies-rendered p) at h in
      ground arith

  -- What `_write_payload` writes, `_read_payload` reads: the stored records, with the defaults that
  -- every read fills in.
  pub read_payload-write_payload :
      (p : AclPayload)
      → AllExact py p.positions
      → read_payload py (write_payload p) ≡ ok (settle py (stored p))
  unfolding read_payload write_payload
  read_payload-write_payload p h = rw (parse-rendered p h)

  -- A read after a write settles records that agree with the written ones.
  pub reread :
      (p q : AclPayload)
      → read_payload py (write_payload p) ≡ ok q
      → (r : AclPayload) × (q ≡ settle py r)
        × (r.roles ≡ p.roles)
        × (r.users ≡ (stored p).users)
        × (r.departments ≡ p.departments)
        × (r.department_permissions ≡ p.department_permissions)
  unfolding read_payload write_payload
  reread p q h =
      let (r, parsed, settled) =
        bind_ok (parse_payload py (obj (rendered p))) (λ x. ok (settle py x)) h in
      let (a, b, c, d) = parse-rendered_parts p r parsed in (r, ground arith, a, b, c, d)
