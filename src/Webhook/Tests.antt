-- ===== src/Webhook/Tests.antt =====
-- Tests of negotium/adapters/ingestion/github_webhook.py, and the theorems at them.
use patch_machine.Prelude.{
  ◌≡◌, ◌⊎◌, refl, String, true, none, some, [], ◌∷◌, ◌==◌, any, if◌then◌else◌,
}
use patch_machine.Python.{
  Value, str, int, arr, item, no_item, obj, no_field, field, Builtins, ok, get, truthy,
  iterate_or_empty, iterate, to_list, as_dict, all_chars, str_of, bool,
}
use patch_machine.Prelude.Int.{pos}
use patch_machine.Domain.{full_name}
use patch_machine.Access.Defaults.{contains}
use patch_machine.Bus.Queue.{Stamp, new_bus, publish_nowait, full}
use patch_machine.Bus.System.{System, start}
use patch_machine.Api.Outcome.{answer, http_error}
use patch_machine.Api.Guard.{starts_with}
use patch_machine.Webhook.Payload.{
  EventStamp, normalize_github_payload, of_issue, issue_event, text_fields, text_field, label_names,
  is_trigger, sub_dict,
}
use patch_machine.Webhook.Handler.{
  GitHubSettings, Wire, Request, handle, handle_verified, read_body, accept, is_allowed,
  verify_signature, verify_given, compare_digest, after_equals, no_secret,
}
use patch_machine.Webhook.Enqueued.{IsSigned, Enqueues, handle-Enqueues}

abbrev py : Builtins
py = record {
  repr = λ v. "7";
  parse_int = λ v. ok (pos 0);
  int_float = λ s. ok (pos 0);
  lower = λ s. s;
}

abbrev opened : Value
opened = obj (
    field "action" (str "opened") (
      field "issue"
        (obj (
          field "number" (int (pos 7)) (
            field "title" (str "bug") (
              field "labels" (arr (item (obj (field "name" (str "negotium") no_field)) no_item))
                no_field))))
        (field "repository"
          (obj (
            field "name" (str "app")
              (field "owner" (obj (field "login" (str "acme") no_field)) no_field)))
          no_field)))

abbrev wire : Wire
wire = record {
  hmac_sha256 = λ secret body. if body == "opened" then "ab12" else "ffff";
  parse_json = λ body. if body == "opened" then some opened else none;
}

abbrev settings : GitHubSettings
settings = record {
  webhook_secret = "s3cret";
  allowed_repos = "acme/app" ∷ [];
  trigger_label = "negotium";
}

abbrev draw : EventStamp
draw = record { event_id = "e1"; created_at = "09:00" }

abbrev stamp : Stamp
stamp = record { trace_id = "t1"; enqueued_at = "09:00" }

abbrev signed_by : String → Request
signed_by digest = record {
  body = "opened";
  x_hub_signature_256 = some digest;
  x_github_event = some "issues";
}

abbrev idle : System
idle = start 1

-- Opens all that the webhook calls.
runs : Unit {0}
unfolding handle handle_verified read_body accept is_allowed verify_signature verify_given
    compare_digest after_equals normalize_github_payload of_issue issue_event text_fields text_field
    label_names is_trigger sub_dict full_name contains any starts_with all_chars publish_nowait full
    get truthy iterate_or_empty iterate to_list as_dict str_of start new_bus
runs = tt

forged :
    handle py wire settings draw stamp (signed_by "sha256=ab13") idle.bus
    ≡ (http_error 401 "invalid signature", idle.bus)
unfolding runs
forged = refl

accepted :
    (handle py wire settings draw stamp (signed_by "sha256=ab12") idle.bus).0
    ≡ answer (record {
      status = 200;
      content =
          field "ok"
            (bool true)
            (field "accepted" (bool true) (field "event_id" (str "e1") no_field));
    })
unfolding runs
accepted = refl

-- The second delivery finds the bus of size 1 full.
queue_full :
    (handle py wire settings draw stamp
      (signed_by "sha256=ab12")
      (handle py wire settings draw stamp (signed_by "sha256=ab12") idle.bus).1).1
    ≡ (handle py wire settings draw stamp (signed_by "sha256=ab12") idle.bus).1
unfolding runs
queue_full = refl

handle-Enqueues_example :
    let bus' = (handle py wire settings draw stamp (signed_by "sha256=ab12") idle.bus).1 in
    (bus' ≡ idle.bus)
    ⊎ (Enqueues py wire settings draw stamp (signed_by "sha256=ab12") idle.bus bus'
        × ((no_secret settings ≡ true) ⊎ IsSigned wire "s3cret" (signed_by "sha256=ab12")))
handle-Enqueues_example =
    handle-Enqueues py wire settings draw stamp (signed_by "sha256=ab12") idle.bus
