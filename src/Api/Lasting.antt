-- ===== src/Api/Lasting.antt =====
-- What an action of negotium/app/api leaves as it was, however it ends: an answer, an error of HTTP or an
-- exception.
use patch_machine.Prelude.{◌≡◌, Bool, true, false, inl, inr, if◌then◌else◌}
use patch_machine.Python.{Result, ok, Result-cases}
use patch_machine.Access.Store as Acl
use patch_machine.Auth.Store.{AuthFile}
use patch_machine.Api.Outcome.{Outcome, answer, http_error, crash}
use patch_machine.Api.Action.{
  Stores, Action, read_acl, read_auth_file, on_auth, catching, write_auth_file, next_of, ◌>>=◌,
}

-- However the action ends, it leaves a condition on the auth file as it was.
abbrev pub Keeps : {A : Type 0} → (AuthFile → Type 0) → Action A → Type 0
Keeps P m = (s : Stores) → P s.auth → P (m s).1.auth

module _ (P : AuthFile → Type 0) where
  module _ {A B : Type 0} where
    next_of-Keeps :
        (r : Outcome A × Stores) (next : A → Action B)
        → ((a : A) → Keeps P (next a))
        → P r.1.auth
        → P (next_of next r).1.auth
    unfolding next_of
    next_of-Keeps (answer a, s) next h before = h a s before
    next_of-Keeps (http_error code detail, s) next h before = before
    next_of-Keeps (crash e, s) next h before = before

    pub bind-Keeps :
        (m : Action A) (next : A → Action B)
        → Keeps P m
        → ((a : A) → Keeps P (next a))
        → Keeps P (m >>= next)
    bind-Keeps m next h k s before = next_of-Keeps (m s) next k (h s before)

  module _ {A : Type 0} where
    pub read_acl-Keeps : (method : Acl.File → Result A) → Keeps P (read_acl method)
    unfolding read_acl
    read_acl-Keeps method s before = before

    pub read_auth_file-Keeps : (method : AuthFile → Result A) → Keeps P (read_auth_file method)
    unfolding read_auth_file
    read_auth_file-Keeps method s before = before

    pub on_auth-Keeps :
        (method : AuthFile → Result (A × AuthFile))
        → ((file file' : AuthFile) (a : A) → P file → method file ≡ ok (a, file') → P file')
        → Keeps P (on_auth method)
    unfolding on_auth
    on_auth-Keeps method h s before = elim (Result-cases (method s.auth)) [
      | inl (e, failed) ↦ rw failed before
      | inr ((a, file'), got) ↦ rw got (h s.auth file' a before got)
    ]

    pub catching-Keeps : (m : Action A) → Keeps P m → Keeps P (catching m)
    unfolding catching
    catching-Keeps m h s before = h s before

    pub branch-Keeps :
        (test : Bool) (m k : Action A) → Keeps P m → Keeps P k → Keeps P (if test then m else k)
    branch-Keeps true m k h l = h
    branch-Keeps false m k h l = l

  pub write_auth_file-Keeps :
      (method : AuthFile → Result AuthFile)
      → ((file file' : AuthFile) → P file → method file ≡ ok file' → P file')
      → Keeps P (write_auth_file method)
  unfolding write_auth_file
  write_auth_file-Keeps method h s before = elim (Result-cases (method s.auth)) [
    | inl (e, failed) ↦ rw failed before
    | inr (file', got) ↦ rw got (h s.auth file' before got)
  ]
