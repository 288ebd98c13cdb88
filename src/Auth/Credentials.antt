-- ===== src/Auth/Credentials.antt =====
-- A stored password hash of negotium/archive/auth_store.py is recognized again.
use Prim.Native.Char.{code}
use Prim.Native.String.{count as char_count}
use patch_machine.Prelude.{
  String, ◌≡◌, refl, Bool, true, not, some, [], ◌∷◌, ltb, nat_eq, arith, eq_refl, Bool-cases, inl,
  inr,
}
use patch_machine.Prelude.Int.{pos}
use patch_machine.Python.{Builtins, ok, Result-cases, str, int_of, all_chars}
use patch_machine.Auth.Passwords.{
  Crypto, password_iterations, join, cut, split_dollar, hash_password, compare_parts,
  verify_password,
}

abbrev pub has_no_dollar : String → Bool
has_no_dollar s = all_chars (λ c. not (nat_eq (code c) 36)) s

cut-join : (s t : String) → has_no_dollar s ≡ true → cut (join s (String.◌∷◌ "$" t)) ≡ (s, some t)
unfolding cut join all_chars
cut-join String.[] t h = refl
cut-join (String.◌∷◌ c s) t h = ground (arith, cut-join s t, h)

module _ (py : Builtins) (crypto : Crypto) where
  abbrev stored_hash : String → String → String
  stored_hash salt digest =
      join "pbkdf2_sha256$200000$"
        (join (crypto.b64encode salt) (String.◌∷◌ "$" (crypto.b64encode digest)))

  split-stored_hash :
      (salt digest : String)
      → has_no_dollar (crypto.b64encode salt) ≡ true
      → split_dollar 3 (stored_hash salt digest)
        ≡ "pbkdf2_sha256" ∷ "200000" ∷ crypto.b64encode salt ∷ crypto.b64encode digest ∷ []
  unfolding split_dollar cut join
  split-stored_hash salt digest h =
      simp (cut-join (crypto.b64encode salt) (crypto.b64encode digest) h)

  hash_password_made :
      (password salt stored : String)
      → hash_password py crypto password salt ≡ ok stored
      → (digest : String) × (crypto.pbkdf2_hmac password salt (pos password_iterations) ≡ ok digest)
        × (stored ≡ stored_hash salt digest)
  unfolding hash_password
  hash_password_made password salt stored made = elim (Bool-cases (ltb (char_count password) 8)) [
    | inl short ↦ absurd (ground (arith, short, made))
    | inr long ↦ elim (Result-cases (crypto.pbkdf2_hmac password salt (pos password_iterations))) [
      | inl (e, failed) ↦ absurd (ground (arith, long, failed, made))
      | inr (digest, derived) ↦ (digest, derived, ground (arith, long, derived, made))
    ]
  ]

  -- A password is verified against the hash that was made of it, whatever the salt: base64 decodes
  -- what it encodes and writes no "$", and `int` reads the number of iterations.
  pub verify_password-hash_password :
      (password salt stored : String)
      → ((bytes : String) → crypto.b64decode (crypto.b64encode bytes) ≡ ok bytes)
      → has_no_dollar (crypto.b64encode salt) ≡ true
      → py.parse_int (str "200000") ≡ ok (pos 200000)
      → hash_password py crypto password salt ≡ ok stored
      → verify_password py crypto password stored ≡ ok true
  unfolding hash_password verify_password compare_parts int_of
  verify_password-hash_password password salt stored decodes plain reads made =
      let (digest, derived, same) = hash_password_made password salt stored made in
      ground (
        arith,
        same,
        split-stored_hash salt digest plain,
        decodes salt,
        decodes digest,
        reads,
        derived,
        eq_refl digest,
      )
