-- ===== src/Api/Keeper.antt =====
-- `_ensure_acl_keeps_admin_access` of negotium/app/api/_shared.py, over the dict that
-- `AccessControlStore.read` returns.
use patch_machine.Prelude.{
  String, Bool, not, ◌&&◌, ◌||◌, List, [], ◌∷◌, ◌++◌, ◌==◌, keep, any, if◌then◌else◌,
}
use patch_machine.Python.{
  Value, null, bool, int, float, str, arr, obj, Fields, Builtins, get, str_or, bool_or_true,
  strings_or_empty, iterate_or_empty, traverse, as_dict, Result, ok, ◌>>=◌, is_blank,
}
use patch_machine.Access.Defaults.{contains}

-- `[dict(item) for item in ... if isinstance(item, dict)]`
unfoldable pub only_objects : List Value → List Fields
only_objects [] = []
only_objects (obj d ∷ vs) = d ∷ only_objects vs
only_objects (null ∷ vs) = only_objects vs
only_objects (bool b ∷ vs) = only_objects vs
only_objects (int i ∷ vs) = only_objects vs
only_objects (float s ∷ vs) = only_objects vs
only_objects (str s ∷ vs) = only_objects vs
only_objects (arr items ∷ vs) = only_objects vs

-- The change that a handler is about to make; a missing list and an empty one are the same.
pub record Change : Type 0 where
  pub users_override : List Fields
  pub roles_override : List Fields
  pub delete_user_id : String
  pub delete_role_id : String

abbrev pub no_change : Change
no_change = record {
  users_override = [];
  roles_override = [];
  delete_user_id = "";
  delete_role_id = "";
}

module _ (py : Builtins) where
  -- `str(entry.get("id") or "")`
  unfoldable pub id_of : Fields → String
  unfolding get str_or
  id_of d = str_or py (get "id" d) ""

  unfoldable pub without_id : String → List Fields → List Fields
  unfolding keep
  without_id id entries = keep (λ d. not (id_of d == id)) entries

  -- The loop over the overrides.
  unfoldable pub overridden : List Fields → List Fields → List Fields
  overridden [] entries = entries
  overridden (d ∷ ds) entries = overridden ds (without_id (id_of d) entries ++ d ∷ [])

  -- `if delete_id: entries = [...]`
  unfoldable pub deleted : String → List Fields → List Fields
  deleted id entries = if is_blank id then entries else without_id id entries

  -- `admin_role_ids`
  unfoldable pub admin_role_ids : List Fields → Result (List String)
  unfolding contains
  admin_role_ids [] = ok []
  admin_role_ids (d ∷ ds) = do
    permissions ← strings_or_empty py (get "permissions" d)
    ids ← admin_role_ids ds
    ok (
        if contains permissions "*" || contains permissions "admin:users"
        then id_of d ∷ ids
        else ids)

  -- `has_admin`, for the users
  unfoldable pub has_admin : List String → List Fields → Bool
  unfolding any contains get bool_or_true str_or
  has_admin ids users =
      any (λ d. bool_or_true (get "active" d) && contains ids (str_or py (get "role_id" d) ""))
        users

  -- `has_admin` of `_ensure_acl_keeps_admin_access`, which raises if it is false.
  unfoldable pub acl_keeps_admin_access : Fields → Change → Result Bool
  acl_keeps_admin_access acl change = do
    user_values ← iterate_or_empty (get "users" acl)
    role_values ← iterate_or_empty (get "roles" acl)
    let users =
        deleted change.delete_user_id (overridden change.users_override (only_objects user_values))
    let roles =
        deleted change.delete_role_id (overridden change.roles_override (only_objects role_values))
    ids ← admin_role_ids roles
    ok (has_admin ids users)

  -- `acl_user_exists` of `create_login_user`
  unfoldable pub has_acl_user : String → Fields → Result Bool
  unfolding any
  has_acl_user user_id acl = do
    user_values ← iterate_or_empty (get "users" acl)
    entries ← traverse as_dict user_values
    ok (any (λ d. id_of d == user_id) entries)
