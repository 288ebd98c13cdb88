-- ===== src/Audit/Log.antt =====
-- `AuditLogStore` of negotium/archive/audit_log.py. The log is the list of its lines; the id and the
-- time of a record are arguments.
use patch_machine.Prelude.{
  zero, suc, ◌-◌, String, Option, none, some, List, [], ◌∷◌, ◌++◌, map, length, drop, reversed,
  if◌then◌else◌,
}
use patch_machine.Prelude.Int.{ℤ, pos, negsuc}
use patch_machine.Python.{
  Value, Line, json, null, bool, int, float, str, arr, obj, Fields, no_field, field, Builtins, get,
  str_or, is_blank, iter_jsonl_records,
}

pub record AuditRecord : Type 0 where
  pub id : String
  pub actor : String
  pub action : String
  pub target : String
  pub target_id : String
  pub timestamp : String
  pub details : Fields

-- What `create` draws: `str(uuid4())` and `datetime.now(UTC).isoformat()`.
pub record Stamp : Type 0 where
  pub id : String
  pub timestamp : String

-- `create`; `details or {}` is the dict itself.
unfoldable pub create_audit : Stamp → String → String → String → String → Fields → AuditRecord
create_audit stamp actor action target target_id details = record {
  id = stamp.id;
  actor = if is_blank actor then "anonymous" else actor;
  action = action;
  target = target;
  target_id = target_id;
  timestamp = stamp.timestamp;
  details = details;
}

unfoldable pub audit_to_dict : AuditRecord → Fields
audit_to_dict r = field "id" (str r.id) (
    field "actor" (str r.actor) (
      field "action" (str r.action) (
        field "target" (str r.target) (
          field "target_id" (str r.target_id)
            (field "timestamp" (str r.timestamp) (field "details" (obj r.details) no_field))))))

-- `details` of `from_mapping`: the keys are texts.
abbrev details_of : Option Value → Fields
details_of none = no_field
details_of (some (obj d)) = d
details_of (some null) = no_field
details_of (some (bool b)) = no_field
details_of (some (int i)) = no_field
details_of (some (float s)) = no_field
details_of (some (str s)) = no_field
details_of (some (arr vs)) = no_field

unfoldable pub audit_of : Builtins → Fields → AuditRecord
audit_of py d = record {
  id = str_or py (get "id" d) "";
  actor = str_or py (get "actor" d) "anonymous";
  action = str_or py (get "action" d) "";
  target = str_or py (get "target" d) "";
  target_id = str_or py (get "target_id" d) "";
  timestamp = str_or py (get "timestamp" d) "";
  details = details_of (get "details" d);
}

-- `record`, of the record that `create` makes.
unfoldable pub record_audit : AuditRecord → List Line → List Line
record_audit r log = log ++ json (obj (audit_to_dict r)) ∷ []

-- `xs[-limit:]`: all of it for 0, and from the front for a limit below 0.
unfoldable pub last_of {ℓ} : {A : Type ℓ} → ℤ → List A → List A
unfolding drop
last_of (pos zero) xs = xs
last_of (pos (suc n)) xs = drop (length xs - suc n) xs
last_of (negsuc n) xs = drop (suc n) xs

-- `list_recent`
unfoldable pub list_recent : Builtins → ℤ → List Line → List Fields
unfolding last_of reversed
list_recent py limit log =
    let records = map (audit_of py) (iter_jsonl_records log) in
    reversed (map audit_to_dict (last_of limit records))
