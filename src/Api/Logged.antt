-- ===== src/Api/Logged.antt =====
-- Which steps of a handler of negotium/app/api write an audit line.
use patch_machine.Prelude.{ℕ, String, ◌≡◌, refl, ◌∙◌, ap, Bool, true, false, arith, if◌then◌else◌}
use patch_machine.Python.{Result, Fields, is_blank}
use patch_machine.Access.Store as Acl
use patch_machine.Auth.Store.{AuthFile}
use patch_machine.Audit.Log.{AuditRecord, create_audit, record_audit}
use patch_machine.Api.Outcome.{answer}
use patch_machine.Api.Action.{
  Stores, Draw, Action, pure, fail, raise_value, read_acl, read_auth_file, on_auth, catching,
  write_acl, write_auth_file, audit, ◌>>=◌,
}
use patch_machine.Api.Triples.{
  bind_answer, catching_answer, read_acl_answer, read_auth_file_answer, on_auth_answer,
  write_acl_answer, write_auth_file_answer,
}

abbrev pub name_of : String → String
name_of actor = if is_blank actor then "anonymous" else actor

module _ {A : Type 0} where
  -- Whenever the action answers, it has written no audit line.
  pub record Quiet (m : Action A) : Type 0 where
    pub quiet : (s s' : Stores) (a : A) → m s ≡ (answer a, s') → s'.audit ≡ s.audit

  -- Whenever the action answers, it has written one audit line, in the name of the actor.
  pub record Logs (actor : String) (m : Action A) : Type 0 where
    pub logs :
        (s s' : Stores) (a : A)
        → m s ≡ (answer a, s')
        → (r : AuditRecord) × (s'.audit ≡ record_audit r s.audit) × (r.actor ≡ name_of actor)

module _ {A B : Type 0} {m : Action A} {next : A → Action B} where
  pub bind-Quiet : Quiet m → ((a : A) → Quiet (next a)) → Quiet (m >>= next)
  bind-Quiet h k = record {
    quiet = λ s s' b run.
        let (a, t, first, second) = bind_answer m next run in
        (k a).quiet t s' b second ∙ h.quiet s t a first;
  }

  pub bind-Logs :
      {actor : String} → Quiet m → ((a : A) → Logs actor (next a)) → Logs actor (m >>= next)
  bind-Logs h k = record {
    logs = λ s s' b run.
        let (a, t, first, second) = bind_answer m next run in
        let (r, wrote, by) = (k a).logs t s' b second in (r, rw (← h.quiet s t a first) wrote, by);
  }

  pub Logs-bind :
      {actor : String} → Logs actor m → ((a : A) → Quiet (next a)) → Logs actor (m >>= next)
  Logs-bind h k = record {
    logs = λ s s' b run.
        let (a, t, first, second) = bind_answer m next run in
        let (r, wrote, by) = h.logs s t a first in (r, (k a).quiet t s' b second ∙ wrote, by);
  }

module _ {A : Type 0} where
  pub read_acl-Quiet : (method : Acl.File → Result A) → Quiet (read_acl method)
  read_acl-Quiet method = record {
    quiet = λ s s' a run. ap (λ t. t.audit) (read_acl_answer method run).1;
  }

  pub read_auth_file-Quiet : (method : AuthFile → Result A) → Quiet (read_auth_file method)
  read_auth_file-Quiet method = record {
    quiet = λ s s' a run. ap (λ t. t.audit) (read_auth_file_answer method run).1;
  }

  pub on_auth-Quiet : (method : AuthFile → Result (A × AuthFile)) → Quiet (on_auth method)
  on_auth-Quiet method = record {
    quiet = λ s s' a run. ap (λ t. t.audit) (on_auth_answer method run).1;
  }

  pub catching-Quiet : {m : Action A} → Quiet m → Quiet (catching m)
  catching-Quiet {m} h = record { quiet = λ s s' a run. h.quiet s s' a (catching_answer m run) }

  pub pure-Quiet : (a : A) → Quiet (pure a)
  pure-Quiet a = record { quiet = λ s s' b run. ground (arith, run) }

  pub fail-Quiet : (code : ℕ) (detail : String) → Quiet {A = A} (fail code detail)
  fail-Quiet code detail = record { quiet = λ s s' b run. absurd (ground (arith, run)) }

  pub raise_value-Quiet : (text : String) → Quiet {A = A} (raise_value text)
  raise_value-Quiet text = record { quiet = λ s s' b run. absurd (ground (arith, run)) }

  -- `if test: ... else: ...`
  pub branch-Quiet :
      (test : Bool) {m k : Action A} → Quiet m → Quiet k → Quiet (if test then m else k)
  branch-Quiet true h l = h
  branch-Quiet false h l = l

pub write_acl-Quiet : (method : Acl.File → Result Acl.File) → Quiet (write_acl method)
write_acl-Quiet method = record {
  quiet = λ s s' a run. ap (λ t. t.audit) (write_acl_answer method run).1;
}

pub write_auth_file-Quiet : (method : AuthFile → Result AuthFile) → Quiet (write_auth_file method)
write_auth_file-Quiet method = record {
  quiet = λ s s' a run. ap (λ t. t.audit) (write_auth_file_answer method run).1;
}

pub audit-Logs :
    (draw : Draw) (actor action target target_id : String) (details : Fields)
    → Logs actor (audit draw actor action target target_id details)
unfolding audit create_audit
audit-Logs draw actor action target target_id details = record {
  logs = λ s s' a run.
      (create_audit draw.stamp actor action target target_id details, ground (arith, run), refl);
}
