-- ===== src/Api/Hoare.antt =====
-- Before and after an action of negotium/app/api that answers: a condition on the stores before it,
-- and one on its answer and the stores after it.
use patch_machine.Prelude.{ℕ, String, ◌≡◌, refl, sym, ap, Bool, true, false, arith, if◌then◌else◌}
use mathlib.Core.Path.{subst}
use patch_machine.Python.{Result, ok, Fields}
use patch_machine.Access.Store.{File}
use patch_machine.Auth.Store.{AuthFile}
use patch_machine.Api.Outcome.{answer}
use patch_machine.Api.Action.{
  Stores, Draw, Action, pure, fail, raise_value, read_acl, read_auth_file, on_auth, catching,
  write_acl, write_auth_file, audit, ◌>>=◌,
}
use patch_machine.Api.Triples.{
  bind_answer, catching_answer, read_acl_answer, read_auth_file_answer, on_auth_answer,
  write_acl_answer, write_auth_file_answer,
}

module _ {A : Type 0} where
  pub record Triple (P : Stores → Type 0) (m : Action A) (Q : A → Stores → Type 0) : Type 0 where
    pub run : (s s' : Stores) (a : A) → P s → m s ≡ (answer a, s') → Q a s'

module _ {A B : Type 0} {P : Stores → Type 0} {m : Action A} {next : A → Action B} where
  pub bind-Triple :
      {R : B → Stores → Type 0} (Q : A → Stores → Type 0)
      → Triple P m Q
      → ((a : A) → Triple (Q a) (next a) R)
      → Triple P (m >>= next) R
  bind-Triple Q h k = record {
    run = λ s s' b before done.
        let (a, t, first, second) = bind_answer m next done in
        (k a).run t s' b (h.run s t a before first) second;
  }

module _ {A : Type 0} {P : Stores → Type 0} {Q : A → Stores → Type 0} where
  pub catching-Triple : {m : Action A} → Triple P m Q → Triple P (catching m) Q
  catching-Triple {m} h = record {
    run = λ s s' a before done. h.run s s' a before (catching_answer m done);
  }

  pub branch-Triple :
      (test : Bool) {m k : Action A}
      → (test ≡ true → Triple P m Q)
      → (test ≡ false → Triple P k Q)
      → Triple P (if test then m else k) Q
  branch-Triple true h l = h refl
  branch-Triple false h l = l refl

  pub fail-Triple : (code : ℕ) (detail : String) → Triple P (fail code detail) Q
  fail-Triple code detail = record { run = λ s s' a before done. absurd (ground (arith, done)) }

  pub raise_value-Triple : (text : String) → Triple P (raise_value text) Q
  raise_value-Triple text = record { run = λ s s' a before done. absurd (ground (arith, done)) }

  pub pure-Triple : (a : A) → ((s : Stores) → P s → Q a s) → Triple P (pure a) Q
  pure-Triple a h = record {
    run = λ s s' b before done.
        subst (λ (x : A). Q x s') (ground (arith, done))
          (subst (λ (t : Stores). Q a t) (ground (arith, done)) (h s before));
  }

  -- What a step that does not write the file does: the method has answered.
  pub read_acl-Triple :
      (method : File → Result A)
      → ((s : Stores) (a : A) → P s → method s.acl ≡ ok a → Q a s)
      → Triple P (read_acl method) Q
  read_acl-Triple method h = record {
    run = λ s s' a before done.
        let (got, same) = read_acl_answer method done in
        subst (λ (t : Stores). Q a t) (sym same) (h s a before got);
  }

-- A condition on the access control file alone, which other stores do not change.
abbrev pub OfAcl : (File → Type 0) → Stores → Type 0
OfAcl P s = P s.acl

module _ {A : Type 0} (P : File → Type 0) where
  pub read_acl-Frame :
      (method : File → Result A) → Triple (OfAcl P) (read_acl method) (λ _. OfAcl P)
  read_acl-Frame method = record {
    run = λ s s' a before done.
        subst P (sym (ap (λ t. t.acl) (read_acl_answer method done).1)) before;
  }

  pub read_auth_file-Frame :
      (method : AuthFile → Result A) → Triple (OfAcl P) (read_auth_file method) (λ _. OfAcl P)
  read_auth_file-Frame method = record {
    run = λ s s' a before done.
        subst P (sym (ap (λ t. t.acl) (read_auth_file_answer method done).1)) before;
  }

  pub on_auth-Frame :
      (method : AuthFile → Result (A × AuthFile)) → Triple (OfAcl P) (on_auth method) (λ _. OfAcl P)
  on_auth-Frame method = record {
    run =
        λ s s' a before done. subst P (sym (ap (λ t. t.acl) (on_auth_answer method done).1)) before;
  }

  pub pure-Frame : (a : A) → Triple (OfAcl P) (pure a) (λ _. OfAcl P)
  pure-Frame a = pure-Triple a λ s h. h

module _ (P : File → Type 0) where
  pub write_auth_file-Frame :
      (method : AuthFile → Result AuthFile)
      → Triple (OfAcl P) (write_auth_file method) (λ _. OfAcl P)
  write_auth_file-Frame method = record {
    run = λ s s' a before done.
        subst P (sym (ap (λ t. t.acl) (write_auth_file_answer method done).1)) before;
  }

  pub audit-Frame :
      (draw : Draw) (actor action target target_id : String) (details : Fields)
      → Triple (OfAcl P) (audit draw actor action target target_id details) (λ _. OfAcl P)
  unfolding audit
  audit-Frame draw actor action target target_id details = record {
    run = λ s s' a before done. subst P (sym (ground (arith, done))) before;
  }

  -- What a write of the file does.
  pub write_acl-Triple :
      {Q : File → Type 0} (method : File → Result File)
      → ((file file' : File) → P file → method file ≡ ok file' → Q file')
      → Triple (OfAcl P) (write_acl method) (λ _. OfAcl Q)
  write_acl-Triple method h = record {
    run = λ s s' a before done. h s.acl s'.acl before (write_acl_answer method done).0;
  }

-- A condition on the auth file alone.
abbrev pub OfAuth : (AuthFile → Type 0) → Stores → Type 0
OfAuth P s = P s.auth

module _ (P : AuthFile → Type 0) where
  pub write_acl-AuthFrame :
      (method : File → Result File) → Triple (OfAuth P) (write_acl method) (λ _. OfAuth P)
  write_acl-AuthFrame method = record {
    run = λ s s' a before done.
        subst P (sym (ap (λ t. t.auth) (write_acl_answer method done).1)) before;
  }

  pub read_acl-AuthFrame :
      {A : Type 0} (method : File → Result A) → Triple (OfAuth P) (read_acl method) (λ _. OfAuth P)
  read_acl-AuthFrame method = record {
    run = λ s s' a before done.
        subst P (sym (ap (λ t. t.auth) (read_acl_answer method done).1)) before;
  }

  pub read_auth_file-AuthFrame :
      {A : Type 0} (method : AuthFile → Result A)
      → Triple (OfAuth P) (read_auth_file method) (λ _. OfAuth P)
  read_auth_file-AuthFrame method = record {
    run = λ s s' a before done.
        subst P (sym (ap (λ t. t.auth) (read_auth_file_answer method done).1)) before;
  }

  pub audit-AuthFrame :
      (draw : Draw) (actor action target target_id : String) (details : Fields)
      → Triple (OfAuth P) (audit draw actor action target target_id details) (λ _. OfAuth P)
  unfolding audit
  audit-AuthFrame draw actor action target target_id details = record {
    run = λ s s' a before done. subst P (sym (ground (arith, done))) before;
  }

  -- What a write of the auth file does, with or without a result.
  pub write_auth_file-Triple :
      {Q : AuthFile → Type 0} (method : AuthFile → Result AuthFile)
      → ((file file' : AuthFile) → P file → method file ≡ ok file' → Q file')
      → Triple (OfAuth P) (write_auth_file method) (λ _. OfAuth Q)
  write_auth_file-Triple method h = record {
    run = λ s s' a before done. h s.auth s'.auth before (write_auth_file_answer method done).0;
  }

  pub on_auth-Triple :
      {A : Type 0} {Q : A → AuthFile → Type 0} (method : AuthFile → Result (A × AuthFile))
      → ((file file' : AuthFile) (a : A) → P file → method file ≡ ok (a, file') → Q a file')
      → Triple (OfAuth P) (on_auth method) (λ a s. Q a s.auth)
  on_auth-Triple method h = record {
    run = λ s s' a before done. h s.auth s'.auth a before (on_auth_answer method done).0;
  }
