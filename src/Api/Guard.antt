-- ===== src/Api/Guard.antt =====
-- `_extract_token`, `_resolve_authenticated_user` and `_require` of negotium/app/api/_shared.py, over
-- the files of the auth store and of the access control store.
use Prim.Native.Char.{code}
use Prim.Native.String.{◌++◌ as append}
use patch_machine.Prelude.{
  ℕ, zero, suc, String, Bool, true, false, ◌&&◌, Option, none, some, nat_eq, if◌then◌else◌,
}
use patch_machine.Python.{Builtins, Result, ok, raise, strip, is_blank}
use patch_machine.Access.Store.{File}
use patch_machine.Access.Permissions.{has_permission}
use patch_machine.Auth.Passwords.{Crypto}
use patch_machine.Auth.Store.{AuthFile, resolve_token}
use patch_machine.Api.Outcome.{Outcome, answer, http_error, crash}

-- `text.startswith(start)`
unfoldable pub starts_with : String → String → Bool
starts_with String.[] text = true
starts_with (String.◌∷◌ c start) String.[] = false
starts_with (String.◌∷◌ c start) (String.◌∷◌ d text) =
    nat_eq (code c) (code d) && starts_with start text

-- `text[n:]`
unfoldable pub drop_chars : ℕ → String → String
drop_chars zero text = text
drop_chars (suc n) String.[] = String.[]
drop_chars (suc n) (String.◌∷◌ c text) = drop_chars n text

-- `_extract_token`
unfoldable pub extract_token : Builtins → Option String → String
extract_token py none = ""
extract_token py (some credential) =
    let value = strip credential in
    if is_blank credential
    then ""
    else if starts_with "bearer " (py.lower value)
    then strip (drop_chars 7 value)
    else value

module _ (py : Builtins) (crypto : Crypto) where
  -- `_resolve_authenticated_user`
  unfoldable pub resolve_authenticated_user :
      Option String → ℕ → AuthFile → Result (Option String × AuthFile)
  resolve_authenticated_user credential now auth =
      let token = extract_token py credential in
      if is_blank token then ok (none, auth) else resolve_token py crypto token now auth

  -- The end of `_require`, once the user was looked for.
  unfoldable pub admit :
      String → File → AuthFile → Result (Option String × AuthFile) → Outcome String × AuthFile
  admit permission acl auth (raise e) = (crash e, auth)
  admit permission acl auth (ok (none, auth')) = (http_error 401 "login required", auth')
  admit permission acl auth (ok (some user_id, auth')) =
      elim (has_permission py (some user_id) permission acl) [
        | raise e ↦ (crash e, auth')
        | ok granted ↦
            if granted
            then (answer user_id, auth')
            else (http_error 403 (append "permission required: " permission), auth')
      ]

  -- `_require`: the outcome, and the auth file that looking for the user leaves.
  unfoldable pub require : Option String → String → ℕ → File → AuthFile → Outcome String × AuthFile
  require credential permission now acl auth =
      admit permission acl auth (resolve_authenticated_user credential now auth)
