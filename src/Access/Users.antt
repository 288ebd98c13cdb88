-- ===== src/Access/Users.antt =====
-- Deleted and deactivated users, the default roles, and the lockout recovery.
use patch_machine.Prelude.{
  String, ◌≡◌, refl, Bool, false, not, none, some, List, ◌==◌, keep, find, is_empty, find-keep-none,
  find-map, if◌then◌else◌, arith, Bool-cases, inl, inr, ap,
}
use patch_machine.Python.{Builtins, ok, bind_ok}
use patch_machine.Access.Records.{RoleRecord, UserRecord}
use patch_machine.Access.Defaults.{AclPayload, normalize_user, restore_default_owner}
use patch_machine.Access.Store.{
  File, read_payload, write_payload, settle, recover_owner, delete_user,
}
use patch_machine.Access.Permissions.{grants, resolve_user, has_permission, find_user}
use patch_machine.Access.Documents.{stored, stored_user, reread}

-- What reading does to a user keeps the id.
id-stored : (u : UserRecord) → (normalize_user (stored_user u)).id ≡ u.id
unfolding normalize_user stored_user
id-stored u = ground arith

abbrev recovered : UserRecord → UserRecord
recovered u = if u.id == "owner" then restore_default_owner u else u

id-recovered : (u : UserRecord) → (recovered u).id ≡ u.id
unfolding restore_default_owner
id-recovered u = ground arith

find_user-recover_owner :
    (id : String) (users : List UserRecord) (roles : List RoleRecord)
    → find_user id users ≡ none
    → find_user id (recover_owner users roles) ≡ none
unfolding recover_owner
find_user-recover_owner id users roles h = ground (
  arith,
  h,
  find-map (λ u. u.id == id) (λ u. u.id == id) recovered users
      (λ u. ap (λ x. x == id) (id-recovered u)),
)

module _ (py : Builtins) (id : String) where
  find_user-settle :
      (p : AclPayload) → find_user id p.users ≡ none → find_user id (settle py p).users ≡ none
  unfolding settle
  find_user-settle p h = elim (Bool-cases (is_empty p.roles)) [
    | inl b ↦ rw b (unfold find in refl)
    | inr b ↦ rw b (find_user-recover_owner id p.users _ h)
  ]

  find_user-stored :
      (p : AclPayload) → find_user id p.users ≡ none → find_user id (stored p).users ≡ none
  unfolding stored
  find_user-stored p h = ground (
    arith,
    h,
    find-map (λ u. u.id == id) (λ u. u.id == id) (λ u. normalize_user (stored_user u)) p.users
        (λ u. ap (λ x. x == id) (id-stored u)),
  )

  grants_unknown :
      (p : AclPayload) (permission : String)
      → find_user id p.users ≡ none
      → grants p (some id) permission ≡ false
  unfolding grants
  grants_unknown p permission h =
      let nobody : resolve_user p (some id) ≡ none = unfold resolve_user in ground (arith, h) in
      rw (nobody, grants) refl

  -- After a user is deleted, the user has no permission, whatever the file held.
  pub delete_user-has_permission :
      (permission : String) (file file' : File) (answer : Bool)
      → delete_user py id file ≡ ok file'
      → has_permission py (some id) permission file' ≡ ok answer
      → answer ≡ false
  unfolding delete_user has_permission
  delete_user-has_permission permission file file' answer h k =
      let (p, got, written) =
        bind_ok (read_payload py file)
          (λ p. ok (write_payload (record p { users = keep (λ u. not (u.id == id)) p.users }))) h in
      let p' = record p { users = keep (λ u. not (u.id == id)) p.users } in
      let same : file' ≡ write_payload p' = ground (arith, written) in
      let (q, reading, told) =
        bind_ok (read_payload py file') (λ q. ok (grants q (some id) permission)) k in
      let (r, settled, _, users, _, _) = reread py p' q (rw same at reading) in
      let gone : find_user id p'.users ≡ none =
        find-keep-none (λ u. u.id == id) (λ u. not (u.id == id)) p.users (λ u e. ap not e) in
      let gone' : find_user id r.users ≡ none = rw users (find_user-stored p' gone) in
      let gone'' : find_user id q.users ≡ none = rw settled (find_user-settle r gone') in
      ground (arith, told, grants_unknown q permission gone'')
