-- ===== src/Auth/Passwords.antt =====
-- Passwords, tokens, times and ids of negotium/archive/auth_store.py. The cryptography is a
-- parameter; bytes are texts of their code points.
use Prim.Native.Char.{Char, code}
use Prim.Native.String.{count as char_count}
use patch_machine.Prelude.{
  ℕ, zero, suc, String, Bool, false, ◌||◌, not, Option, none, some, List, [], ◌∷◌, ◌==◌, ltb,
  nat_eq, if◌then◌else◌,
}
use patch_machine.Prelude.Int.{ℤ, pos}
use patch_machine.Python.{
  Builtins, Result, ok, raise, raise_if, value_error, type_error, attribute_error, overflow_error,
  key_error, file_not_found, runtime_error, str, int_of, all_chars, is_blank, ◌>>=◌, ◌>>◌,
}
use patch_machine.Auth.Records.{SessionRecord}

-- `datetime.fromisoformat`: a time with its offset, in microseconds, or one without.
pub data Moment : Type 0 where
  aware : ℕ → Moment
  naive : Moment

-- `hashlib.pbkdf2_hmac("sha256", password, salt, iterations)`, `base64`, `hashlib.sha256`,
-- `str.isalnum`, `datetime.isoformat` of a time in UTC and `datetime.fromisoformat`.
pub record Crypto : Type 0 where
  pub pbkdf2_hmac : String → String → ℤ → Result String
  pub b64encode : String → String
  pub b64decode : String → Result String
  pub sha256 : String → String
  pub isalnum : Char → Bool
  pub isoformat : ℕ → String
  pub fromisoformat : String → Option Moment

abbrev pub password_iterations : ℕ
password_iterations = 200000

-- `SESSION_TTL`, in microseconds
abbrev pub session_ttl : ℕ
session_ttl = 43200000000

-- `a + b` on texts
unfoldable pub join : String → String → String
join String.[] t = t
join (String.◌∷◌ c s) t = String.◌∷◌ c (join s t)

-- The text before the first "$" and the text behind it, if there is one.
unfoldable pub cut : String → String × Option String
cut String.[] = (String.[], none)
cut (String.◌∷◌ c s) =
    let (before, after) = cut s in
    if nat_eq (code c) 36 then (String.[], some s) else (String.◌∷◌ c before, after)

-- `stored.split("$", n)`
unfoldable pub split_dollar : ℕ → String → List String
unfolding cut
split_dollar zero s = s ∷ []
split_dollar (suc n) s =
    let (before, after) = cut s in
    elim after [ none ↦ before ∷ [] | some rest ↦ before ∷ split_dollar n rest ]

-- `except (ValueError, TypeError): return False`
abbrev or_false : Result Bool → Result Bool
or_false (ok b) = ok b
or_false (raise type_error) = ok false
or_false (raise (value_error m)) = ok false
or_false (raise attribute_error) = raise attribute_error
or_false (raise overflow_error) = raise overflow_error
or_false (raise key_error) = raise key_error
or_false (raise file_not_found) = raise file_not_found
or_false (raise (runtime_error m)) = raise (runtime_error m)

module _ (py : Builtins) (crypto : Crypto) where
  -- `_hash_password`, with the salt that `secrets.token_bytes` draws
  unfoldable pub hash_password : String → String → Result String
  hash_password password salt = do
    raise_if (ltb (char_count password) 8) (value_error "password must be at least 8 characters")
    digest ← crypto.pbkdf2_hmac password salt (pos password_iterations)
    ok (
        join "pbkdf2_sha256$200000$"
          (join (crypto.b64encode salt) (String.◌∷◌ "$" (crypto.b64encode digest))))

  -- The comparison of `_verify_password`, over the parts of the stored text.
  unfoldable pub compare_parts : String → List String → Result Bool
  compare_parts password (algorithm ∷ iterations ∷ salt ∷ digest ∷ []) =
      if not (algorithm == "pbkdf2_sha256") then ok false else do
        salt_bytes ← crypto.b64decode salt
        rounds ← int_of py (str iterations)
        expected ← crypto.pbkdf2_hmac password salt_bytes rounds
        digest_bytes ← crypto.b64decode digest
        ok (expected == digest_bytes)
  compare_parts password _ = raise (value_error "not enough values to unpack")

  -- `_verify_password`
  unfoldable pub verify_password : String → String → Result Bool
  verify_password password stored = or_false (compare_parts password (split_dollar 3 stored))

  -- `_hash_token`
  unfoldable pub hash_token : String → String
  hash_token token = crypto.sha256 token

  -- `_active_sessions`
  unfoldable pub active_sessions : ℕ → List SessionRecord → Result (List SessionRecord)
  active_sessions now [] = ok []
  active_sessions now (s ∷ ss) =
      let rest = active_sessions now ss in
      elim (crypto.fromisoformat s.expires_at) [
        | none ↦ rest
        | some naive ↦ raise type_error
        | some (aware t) ↦ do active ← rest; ok (if ltb now t then s ∷ active else active)
      ]

  -- `_validate_user_id`
  unfoldable pub validate_user_id : String → Result (Unit {0})
  validate_user_id user_id =
      raise_if
        (is_blank user_id
          || not (
              all_chars
                (λ c.
                  crypto.isalnum c
                  || nat_eq (code c) 46
                  || nat_eq (code c) 95
                  || nat_eq (code c) 45)
                user_id))
        (value_error "user id may contain only letters, numbers, dot, underscore, and hyphen")
