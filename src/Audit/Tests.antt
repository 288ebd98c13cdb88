-- ===== src/Audit/Tests.antt =====
-- Tests of negotium/archive/audit_log.py.
use patch_machine.Prelude.{reversed, ◌≡◌, refl, [], ◌∷◌}
use patch_machine.Prelude.Int.{pos}
use patch_machine.Python.{no_field, ok, Builtins, iter_jsonl_records, get, str_or, truthy, str_of}
use patch_machine.Audit.Log.{
  AuditRecord, create_audit, audit_to_dict, audit_of, record_audit, list_recent, last_of,
}

abbrev py : Builtins
py = record {
  repr = λ v. "";
  parse_int = λ v. ok (pos 0);
  int_float = λ s. ok (pos 0);
  lower = λ s. s;
}

abbrev entry : AuditRecord
entry = record {
  id = "a1";
  actor = "kim";
  action = "role.upsert";
  target = "role";
  target_id = "lead";
  timestamp = "10:00";
  details = no_field;
}

no_actor :
    (create_audit (record { id = "a2"; timestamp = "10:05" }) "" "login" "user" "" no_field).actor
    ≡ "anonymous"
unfolding create_audit
no_actor = refl

-- A limit of 0 returns the whole log.
limit_of_zero :
    list_recent py (pos 0) (record_audit entry (record_audit entry []))
    ≡ audit_to_dict entry ∷ audit_to_dict entry ∷ []
unfolding list_recent last_of reversed record_audit iter_jsonl_records audit_of audit_to_dict get
    str_or truthy str_of
limit_of_zero = refl
