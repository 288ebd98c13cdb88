-- ===== src/Api/Action.antt =====
-- What a handler of negotium/app/api does to the stores of the container: an action returns its
-- outcome and the stores, also after an error, since what was written stays written.
use patch_machine.Prelude.{ℕ, String, Option, List}
use patch_machine.Python.{Builtins, value_error, Result, ok, raise, Line, Fields}
use patch_machine.Access.Store.{File}
use patch_machine.Auth.Passwords.{Crypto}
use patch_machine.Auth.Store.{AuthFile}
use patch_machine.Audit.Log.{Stamp, create_audit, record_audit}
use patch_machine.Api.Outcome.{Outcome, answer, http_error, crash}
use patch_machine.Api.Guard.{require}

-- `container.access_control`, `container.auth_store` and `container.audit_log`
pub record Stores : Type 0 where
  pub acl : File
  pub auth : AuthFile
  pub audit : List Line

-- What a handler draws: the time in microseconds and as a text, ids, the token and the salt.
pub record Draw : Type 0 where
  pub now : ℕ
  pub isoformat : String
  pub stamp : Stamp
  pub request_id : String
  pub token : String
  pub salt : String

abbrev pub Action : Type 0 → Type 0
Action A = Stores → Outcome A × Stores

unfoldable pub next_of : {A B : Type 0} → (A → Action B) → Outcome A × Stores → Outcome B × Stores
next_of next (answer a, s) = next a s
next_of next (http_error code detail, s) = (http_error code detail, s)
next_of next (crash e, s) = (crash e, s)

infixl 5 ◌>>=◌ ◌>>◌
abbrev pub ◌>>=◌ : {A B : Type 0} → Action A → (A → Action B) → Action B
◌>>=◌ m next s = next_of next (m s)

abbrev pub ◌>>◌ : {A B : Type 0} → Action A → Action B → Action B
◌>>◌ m after s = next_of (λ _. after) (m s)

abbrev pub of_result : {A : Type 0} → Result A → Outcome A
of_result (ok a) = answer a
of_result (raise e) = crash e

abbrev pub after_acl : Stores → Result File → Outcome (Unit {0}) × Stores
after_acl s (ok acl') = (answer tt, record s { acl = acl' })
after_acl s (raise e) = (crash e, s)

abbrev pub after_auth : {A : Type 0} → Stores → Result (A × AuthFile) → Outcome A × Stores
after_auth s (ok (a, auth')) = (answer a, record s { auth = auth' })
after_auth s (raise e) = (crash e, s)

abbrev pub after_auth_only : Stores → Result AuthFile → Outcome (Unit {0}) × Stores
after_auth_only s (ok auth') = (answer tt, record s { auth = auth' })
after_auth_only s (raise e) = (crash e, s)

-- `HTTPException(400, detail=str(exc))` for a `ValueError`
abbrev pub as_400 : {A : Type 0} → Outcome A → Outcome A
as_400 (answer a) = answer a
as_400 (http_error code detail) = http_error code detail
as_400 (crash (value_error text)) = http_error 400 text
as_400 (crash e) = crash e

module _ {A : Type 0} where
  abbrev pub pure : A → Action A
  pure a s = (answer a, s)

  abbrev pub fail : ℕ → String → Action A
  fail code detail s = (http_error code detail, s)

  -- `raise ValueError(text)`
  abbrev pub raise_value : String → Action A
  raise_value text s = (crash (value_error text), s)

  -- A method that reads the access control file, or the auth file.
  unfoldable pub read_acl : (File → Result A) → Action A
  read_acl method s = (of_result (method s.acl), s)

  unfoldable pub read_auth_file : (AuthFile → Result A) → Action A
  read_auth_file method s = (of_result (method s.auth), s)

  -- A method that may write the auth file.
  unfoldable pub on_auth : (AuthFile → Result (A × AuthFile)) → Action A
  on_auth method s = after_auth s (method s.auth)

  -- `try: ... except ValueError as exc: raise HTTPException(400, detail=str(exc))`
  unfoldable pub catching : Action A → Action A
  catching m s = let (outcome, s') = m s in (as_400 outcome, s')

unfoldable pub write_acl : (File → Result File) → Action (Unit {0})
write_acl method s = after_acl s (method s.acl)

unfoldable pub write_auth_file : (AuthFile → Result AuthFile) → Action (Unit {0})
write_auth_file method s = after_auth_only s (method s.auth)

-- `_audit`
unfoldable pub audit : Draw → String → String → String → String → Fields → Action (Unit {0})
audit draw actor action target target_id details s = (
  answer tt,
  record s {
    audit = record_audit (create_audit draw.stamp actor action target target_id details) s.audit;
  },
)

-- `_require`
unfoldable pub required : Builtins → Crypto → Draw → Option String → String → Action String
required py crypto draw credential permission s =
    let (outcome, auth') = require py crypto credential permission draw.now s.acl s.auth in
    (outcome, record s { auth = auth' })
