-- ===== src/Api/Logout.antt =====
-- `logout` and `me` of negotium/app/api/auth.py.
use patch_machine.Prelude.{
  String, ◌≡◌, false, Option, none, arith, Bool-cases, inl, inr, if◌then◌else◌,
}
use patch_machine.Python.{Builtins, Fields, no_field, field, bool, ok, is_blank}
use patch_machine.Auth.Passwords.{Crypto}
use patch_machine.Auth.Store.{revoke_token}
use patch_machine.Auth.Tokens.{revoke_token-resolve_token}
use patch_machine.Api.Outcome.{answer}
use patch_machine.Api.Guard.{extract_token, resolve_authenticated_user}
use patch_machine.Api.Action.{Stores, Draw, on_auth, write_auth_file, pure}
use patch_machine.Api.Triples.{bind_answer, on_auth_answer, write_auth_file_answer}
use patch_machine.Api.Accounts.{logout, me}

module _ (py : Builtins) (crypto : Crypto) where
  -- What `logout` has done when it answers.
  logout_answer :
      (draw : Draw) (credential : Option String) (s s' : Stores) (d : Fields)
      → is_blank (extract_token py credential) ≡ false
      → logout py crypto draw credential s ≡ (answer d, s')
      → revoke_token py crypto (extract_token py credential) s.auth ≡ ok s'.auth
  unfolding logout
  logout_answer draw credential s s' d given run =
      let revoke = write_auth_file (revoke_token py crypto (extract_token py credential)) in
      let (_, t, first, rest) =
        bind_answer (if is_blank (extract_token py credential) then pure tt else revoke) _ run in
      let (revoked, _) =
        write_auth_file_answer (revoke_token py crypto (extract_token py credential)) {s = s}
          {s' = t} {a = tt} (rw given at first) in
      ground (arith, rest, revoked)

  -- After `logout` has answered, `me` with the same credential answers that nobody is logged in, at
  -- any time.
  pub me-logout :
      (draw draw' : Draw) (credential : Option String) (s s' s'' : Stores) (d d' : Fields)
      → logout py crypto draw credential s ≡ (answer d, s')
      → me py crypto draw' credential s' ≡ (answer d', s'')
      → d' ≡ field "authenticated" (bool false) no_field
  unfolding me resolve_authenticated_user
  me-logout draw draw' credential s s' s'' d d' run asked =
      let (user_id, t, resolved, rest) =
        bind_answer (on_auth (resolve_authenticated_user py crypto credential draw'.now)) _ asked in
      let (found, _) = on_auth_answer _ resolved in
      let nobody : user_id ≡ none = elim (Bool-cases (is_blank (extract_token py credential))) [
        | inl blank ↦ ground (arith, blank, found)
        | inr given ↦
            revoke_token-resolve_token py crypto (extract_token py credential) draw'.now s.auth
              s'.auth t.auth user_id (logout_answer draw credential s s' d given run)
              (ground (arith, given, found))
      ] in
      ground (arith, nobody, rest)
