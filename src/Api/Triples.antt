-- ===== src/Api/Triples.antt =====
-- How the steps of an action compose: what an action that answers has gone through, and relations
-- between the stores before and after it.
use patch_machine.Prelude.{◌≡◌, refl, arith}
use patch_machine.Python.{
  value_error, type_error, attribute_error, overflow_error, key_error, file_not_found,
  runtime_error, Result, ok, raise,
}
use patch_machine.Access.Store.{File}
use patch_machine.Auth.Store.{AuthFile}
use patch_machine.Api.Outcome.{Outcome, answer, http_error, crash}
use patch_machine.Api.Action.{
  Stores, Action, read_acl, read_auth_file, on_auth, catching, write_acl, write_auth_file, next_of,
  after_acl, after_auth, after_auth_only, of_result, as_400, ◌>>=◌,
}

module _ {A B : Type 0} where
  next_of_answer :
      (r : Outcome A × Stores) (next : A → Action B) {s' : Stores} {b : B}
      → next_of next r ≡ (answer b, s')
      → (a : A) × (t : Stores) × (r ≡ (answer a, t)) × (next a t ≡ (answer b, s'))
  unfolding next_of
  next_of_answer (answer a, t) next h = (a, t, refl, h)
  next_of_answer (http_error code detail, t) next h = absurd (ground (arith, h))
  next_of_answer (crash e, t) next h = absurd (ground (arith, h))

  -- A chain that answers has gone through its first step.
  pub bind_answer :
      (m : Action A) (next : A → Action B) {s s' : Stores} {b : B}
      → (m >>= next) s ≡ (answer b, s')
      → (a : A) × (t : Stores) × (m s ≡ (answer a, t)) × (next a t ≡ (answer b, s'))
  unfolding next_of
  bind_answer m next {s} h = next_of_answer (m s) next h

module _ {A : Type 0} where
  of_result_answer : (r : Result A) {a : A} → of_result r ≡ answer a → r ≡ ok a
  of_result_answer (ok b) h = ground (arith, h)
  of_result_answer (raise e) h = absurd (ground (arith, h))

  as_400_answer : (o : Outcome A) {a : A} → as_400 o ≡ answer a → o ≡ answer a
  as_400_answer (answer b) h = h
  as_400_answer (http_error code detail) h = h
  as_400_answer (crash (value_error text)) h = absurd (ground (arith, h))
  as_400_answer (crash type_error) h = h
  as_400_answer (crash attribute_error) h = h
  as_400_answer (crash overflow_error) h = h
  as_400_answer (crash key_error) h = h
  as_400_answer (crash file_not_found) h = h
  as_400_answer (crash (runtime_error text)) h = h

  -- What answers under `try` has not raised.
  pub catching_answer :
      (m : Action A) {s s' : Stores} {a : A} → catching m s ≡ (answer a, s') → m s ≡ (answer a, s')
  unfolding catching
  catching_answer m {s} {a = a} h =
      ground (arith, as_400_answer (m s).0 {a = a} (ground (arith, h)), h)

  pub read_acl_answer :
      (method : File → Result A) {s s' : Stores} {a : A}
      → read_acl method s ≡ (answer a, s')
      → (method s.acl ≡ ok a) × (s' ≡ s)
  unfolding read_acl
  read_acl_answer method {s} h =
      (of_result_answer (method s.acl) (ground (arith, h)), ground (arith, h))

  pub read_auth_file_answer :
      (method : AuthFile → Result A) {s s' : Stores} {a : A}
      → read_auth_file method s ≡ (answer a, s')
      → (method s.auth ≡ ok a) × (s' ≡ s)
  unfolding read_auth_file
  read_auth_file_answer method {s} h =
      (of_result_answer (method s.auth) (ground (arith, h)), ground (arith, h))

  after_auth_answer :
      (s : Stores) (r : Result (A × AuthFile)) {s' : Stores} {a : A}
      → after_auth s r ≡ (answer a, s')
      → (r ≡ ok (a, s'.auth)) × (s' ≡ record s { auth = s'.auth })
  after_auth_answer s (ok (b, auth')) h = ground (arith, h)
  after_auth_answer s (raise e) h = absurd (ground (arith, h))

  pub on_auth_answer :
      (method : AuthFile → Result (A × AuthFile)) {s s' : Stores} {a : A}
      → on_auth method s ≡ (answer a, s')
      → (method s.auth ≡ ok (a, s'.auth)) × (s' ≡ record s { auth = s'.auth })
  unfolding on_auth
  on_auth_answer method {s} h = after_auth_answer s (method s.auth) h

after_acl_answer :
    (s : Stores) (r : Result File) {s' : Stores} {a : Unit {0}}
    → after_acl s r ≡ (answer a, s')
    → (r ≡ ok s'.acl) × (s' ≡ record s { acl = s'.acl })
after_acl_answer s (ok acl') h = ground (arith, h)
after_acl_answer s (raise e) h = absurd (ground (arith, h))

pub write_acl_answer :
    (method : File → Result File) {s s' : Stores} {a : Unit {0}}
    → write_acl method s ≡ (answer a, s')
    → (method s.acl ≡ ok s'.acl) × (s' ≡ record s { acl = s'.acl })
unfolding write_acl
write_acl_answer method {s} h = after_acl_answer s (method s.acl) h

after_auth_only_answer :
    (s : Stores) (r : Result AuthFile) {s' : Stores} {a : Unit {0}}
    → after_auth_only s r ≡ (answer a, s')
    → (r ≡ ok s'.auth) × (s' ≡ record s { auth = s'.auth })
after_auth_only_answer s (ok auth') h = ground (arith, h)
after_auth_only_answer s (raise e) h = absurd (ground (arith, h))

pub write_auth_file_answer :
    (method : AuthFile → Result AuthFile) {s s' : Stores} {a : Unit {0}}
    → write_auth_file method s ≡ (answer a, s')
    → (method s.auth ≡ ok s'.auth) × (s' ≡ record s { auth = s'.auth })
unfolding write_auth_file
write_auth_file_answer method {s} h = after_auth_only_answer s (method s.auth) h
