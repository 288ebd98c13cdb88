-- ===== src/Api/Keeping.antt =====
-- `_ensure_acl_keeps_admin_access` of negotium/app/api/_shared.py against the test of the access
-- control store, on what the store reads.
use patch_machine.Prelude.{
  String, ◌≡◌, refl, ap, Bool, false, not, ◌&&◌, List, [], ◌∷◌, ◌++◌, map, map-append, ◌==◌, keep,
  any, arith,
}
use patch_machine.Python.{
  obj, Fields, Builtins, get, str_or-empty, bool_or_true, strings_or_empty-strings,
  iterate_or_empty, to_list-of_list, is_blank, ok,
}
use patch_machine.Access.Records.{RoleRecord, UserRecord, role_to_dict, user_to_dict}
use patch_machine.Access.Defaults.{AclPayload, contains, is_admin_role, has_active_admin_user}
use patch_machine.Access.Store.{rendered}
use patch_machine.Api.Keeper.{
  only_objects, Change, no_change, id_of, without_id, overridden, deleted, admin_role_ids,
  has_admin, acl_keeps_admin_access,
}

only_objects-map :
    {A : Type 0} (to_dict : A → Fields) (xs : List A)
    → only_objects (map (λ x. obj (to_dict x)) xs) ≡ map to_dict xs
unfolding only_objects
only_objects-map to_dict [] = refl
only_objects-map to_dict (x ∷ xs) = ap (◌∷◌ (to_dict x)) (only_objects-map to_dict xs)

keep-map :
    {A B : Type 0} (test : B → Bool) (f : A → B) (xs : List A)
    → keep test (map f xs) ≡ map f (keep (λ x. test (f x)) xs)
unfolding keep
keep-map test f [] = refl
keep-map test f (x ∷ xs) = ground (arith, keep-map test f xs)

module _ (py : Builtins) where
  -- What the change makes of a list of records.
  module _ {A : Type 0} (to_dict : A → Fields) (id : A → String) where
    abbrev pub without : String → List A → List A
    without key = keep (λ x. not (id x == key))

    without_id-map :
        ((x : A) → id_of py (to_dict x) ≡ id x)
        → (key : String) (xs : List A)
        → without_id py key (map to_dict xs) ≡ map to_dict (without key xs)
    unfolding without_id keep
    without_id-map h key [] = refl
    without_id-map h key (x ∷ xs) = ground (arith, h x, without_id-map h key xs)

    overridden-map :
        ((x : A) → id_of py (to_dict x) ≡ id x)
        → (x : A) (xs : List A)
        → overridden py (to_dict x ∷ []) (map to_dict xs)
          ≡ map to_dict (without (id x) xs ++ x ∷ [])
    unfolding overridden
    overridden-map h x xs = rw (h x, without_id-map h (id x) xs, map-append) refl

  id_of-user : (u : UserRecord) → id_of py (user_to_dict u) ≡ u.id
  unfolding id_of user_to_dict get
  id_of-user u = str_or-empty py u.id

  id_of-role : (r : RoleRecord) → id_of py (role_to_dict r) ≡ r.id
  unfolding id_of role_to_dict get
  id_of-role r = str_or-empty py r.id

  admin_role_ids-map :
      (roles : List RoleRecord)
      → admin_role_ids py (map role_to_dict roles)
        ≡ ok (map (λ (r : RoleRecord). r.id) (keep is_admin_role roles))
  unfolding admin_role_ids keep is_admin_role role_to_dict get
  admin_role_ids-map [] = refl
  admin_role_ids-map (r ∷ rs) =
      rw (strings_or_empty-strings, admin_role_ids-map rs, id_of-role r) (ground arith)

  has_admin-map :
      (ids : List String) (users : List UserRecord)
      → has_admin py ids (map user_to_dict users)
        ≡ any (λ (u : UserRecord). u.active && contains ids u.role_id) users
  unfolding has_admin any user_to_dict get bool_or_true
  has_admin-map ids [] = refl
  has_admin-map ids (u ∷ us) = ground (arith, has_admin-map ids us, str_or-empty py u.role_id)

  -- On what `read` returns, the guard is the store's own test on the records as they will be.
  acl_keeps_admin_access-rendered :
      (p : AclPayload) (change : Change) (users : List UserRecord) (roles : List RoleRecord)
      → deleted py change.delete_user_id
          (overridden py change.users_override (map user_to_dict p.users))
        ≡ map user_to_dict users
      → deleted py change.delete_role_id
          (overridden py change.roles_override (map role_to_dict p.roles))
        ≡ map role_to_dict roles
      → acl_keeps_admin_access py (rendered p) change ≡ ok (has_active_admin_user users roles)
  unfolding acl_keeps_admin_access rendered get iterate_or_empty has_active_admin_user
  acl_keeps_admin_access-rendered p change users roles e f =
      rw
        (
          to_list-of_list,
          only_objects-map role_to_dict,
          f,
          admin_role_ids-map,
          to_list-of_list,
          only_objects-map user_to_dict,
          e,
          has_admin-map,
        )
        refl

  pub keeps-upsert_user :
      (p : AclPayload) (u : UserRecord)
      → acl_keeps_admin_access py
          (rendered p)
          (record no_change { users_override = user_to_dict u ∷ [] })
        ≡ ok (has_active_admin_user (keep (λ x. not (x.id == u.id)) p.users ++ u ∷ []) p.roles)
  unfolding deleted overridden
  keeps-upsert_user p u =
      acl_keeps_admin_access-rendered p _ _ p.roles
        (overridden-map user_to_dict (λ x. x.id) id_of-user u p.users) refl

  pub keeps-upsert_role :
      (p : AclPayload) (r : RoleRecord)
      → acl_keeps_admin_access py
          (rendered p)
          (record no_change { roles_override = role_to_dict r ∷ [] })
        ≡ ok (has_active_admin_user p.users (keep (λ x. not (x.id == r.id)) p.roles ++ r ∷ []))
  unfolding deleted overridden
  keeps-upsert_role p r =
      acl_keeps_admin_access-rendered p _ p.users _ refl
        (overridden-map role_to_dict (λ x. x.id) id_of-role r p.roles)

  pub keeps-delete_user :
      (p : AclPayload) (id : String)
      → is_blank id ≡ false
      → acl_keeps_admin_access py (rendered p) (record no_change { delete_user_id = id })
        ≡ ok (has_active_admin_user (keep (λ x. not (x.id == id)) p.users) p.roles)
  unfolding deleted overridden
  keeps-delete_user p id given =
      acl_keeps_admin_access-rendered p _ _ p.roles
        (rw given (without_id-map user_to_dict (λ x. x.id) id_of-user id p.users)) refl

  pub keeps-delete_role :
      (p : AclPayload) (id : String)
      → is_blank id ≡ false
      → acl_keeps_admin_access py (rendered p) (record no_change { delete_role_id = id })
        ≡ ok (has_active_admin_user p.users (keep (λ x. not (x.id == id)) p.roles))
  unfolding deleted overridden
  keeps-delete_role p id given =
      acl_keeps_admin_access-rendered p _ p.users _ refl
        (rw given (without_id-map role_to_dict (λ x. x.id) id_of-role id p.roles))
