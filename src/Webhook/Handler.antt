-- ===== src/Webhook/Handler.antt =====
-- `GitHubWebhookRouter` of negotium/adapters/ingestion/github_webhook.py, over the event bus.
use Prim.Native.Char.{code}
use patch_machine.Prelude.{
  ℕ, String, Bool, true, false, not, ◌&&◌, ◌||◌, Option, none, some, List, ◌==◌, ltb, nat_eq,
  is_empty, if◌then◌else◌,
}
use patch_machine.Python.{
  Value, str, bool, Fields, no_field, field, Builtins, is_blank, all_chars, Result, ok, raise,
  type_error, runtime_error,
}
use patch_machine.Domain.{IssueEvent, DomainEvent, full_name}
use patch_machine.Access.Defaults.{contains}
use patch_machine.Bus.Queue.{EventBus, Stamp, publish_nowait}
use patch_machine.Api.Outcome.{Outcome, answer, http_error, crash}
use patch_machine.Api.Guard.{starts_with}
use patch_machine.Webhook.Payload.{EventStamp, normalize_github_payload}

-- `GitHubSettings`, as far as the router reads it.
pub record GitHubSettings : Type 0 where
  pub webhook_secret : String
  pub allowed_repos : List String
  pub trigger_label : String

-- `hmac.new(secret, body, hashlib.sha256).hexdigest()`, and `request.json()` of a body: none if it
-- raises.
pub record Wire : Type 0 where
  pub hmac_sha256 : String → String → String
  pub parse_json : String → Option Value

pub record Request : Type 0 where
  pub body : String
  pub x_hub_signature_256 : Option String
  pub x_github_event : Option String

-- `JSONResponse`
pub record Response : Type 0 where
  pub status : ℕ
  pub content : Fields

-- `signature.split("=", 1)[1]` of a signature with an equals sign
unfoldable pub after_equals : String → String
after_equals String.[] = String.[]
after_equals (String.◌∷◌ c s) = let rest = after_equals s in if nat_eq (code c) 61 then s else rest

-- `not secret or secret == b"change-me"`
abbrev pub no_secret : GitHubSettings → Bool
no_secret settings = is_blank settings.webhook_secret || settings.webhook_secret == "change-me"

-- `hmac.compare_digest`, which takes ASCII texts only
unfoldable pub compare_digest : String → String → Result Bool
unfolding all_chars
compare_digest a b =
    if all_chars (λ c. ltb (code c) 128) a && all_chars (λ c. ltb (code c) 128) b
    then ok (a == b)
    else raise type_error

abbrev pub of_comparison : Result Bool → Outcome (Unit {0})
of_comparison (ok true) = answer tt
of_comparison (ok false) = http_error 401 "invalid signature"
of_comparison (raise e) = crash e

-- `_verify_signature`, for a secret that is set
unfoldable pub verify_given : Wire → String → String → Option String → Outcome (Unit {0})
unfolding starts_with compare_digest after_equals
verify_given wire secret body none = http_error 401 "missing signature"
verify_given wire secret body (some signature) =
    let compared =
      of_comparison (compare_digest (after_equals signature) (wire.hmac_sha256 secret body)) in
    if starts_with "sha256=" signature then compared else http_error 401 "missing signature"

-- `_verify_signature`
unfoldable pub verify_signature :
    GitHubSettings → Wire → String → Option String → Outcome (Unit {0})
unfolding verify_given
verify_signature settings wire body signature =
    if no_secret settings
    then answer tt
    else verify_given wire settings.webhook_secret body signature

-- `_is_allowed`
unfoldable pub is_allowed : GitHubSettings → IssueEvent → Bool
unfolding full_name contains
is_allowed settings event =
    if not (is_empty settings.allowed_repos)
      && not (contains settings.allowed_repos (full_name event.repo))
    then false
    else not (
        not (is_blank settings.trigger_label) && not (contains event.labels settings.trigger_label))

abbrev pub Handled : Type 0
Handled = Outcome Response × EventBus

abbrev reply : ℕ → Fields → Outcome Response
reply status content = answer (record { status = status; content = content })

abbrev not_accepted : String → Fields
not_accepted reason =
    field "ok" (bool true) (field "accepted" (bool false) (field "reason" (str reason) no_field))

-- `x_github_event or ""`
abbrev pub event_name : Option String → String
event_name none = ""
event_name (some name) = name

module _ (py : Builtins) (wire : Wire) (settings : GitHubSettings) (draw : EventStamp)
    (stamp : Stamp) where
  -- What was published: only `QueueFullError` is caught, the `RuntimeError` of the bus.
  abbrev pub published : IssueEvent → EventBus → Result (DomainEvent × EventBus) → Handled
  published event bus (ok (envelope, bus')) = (
    reply 200 (
        field "ok" (bool true)
          (field "accepted" (bool true) (field "event_id" (str event.event_id) no_field))),
    bus',
  )
  published event bus (raise (runtime_error text)) =
      (reply 503 (field "ok" (bool false) (field "reason" (str "queue_full") no_field)), bus)
  published event bus (raise e) = (crash e, bus)

  -- From the normalized payload on.
  unfoldable pub accept : EventBus → Result (Option IssueEvent) → Handled
  accept bus (raise e) = (crash e, bus)
  accept bus (ok none) = (reply 200 (not_accepted "ignored"), bus)
  accept bus (ok (some event)) =
      if not (is_allowed settings event)
      then (reply 200 (not_accepted "not_allowed"), bus)
      else published event bus (publish_nowait event stamp bus)

  -- `await request.json()` and what follows
  unfoldable pub read_body : Request → EventBus → Option Value → Handled
  read_body request bus none = (http_error 400 "invalid json", bus)
  read_body request bus (some payload) =
      accept bus (normalize_github_payload py draw (event_name request.x_github_event) payload)

  -- The part of `_handle` behind `_verify_signature`.
  unfoldable pub handle_verified : Request → EventBus → Handled
  handle_verified request bus =
      if event_name request.x_github_event == "ping"
      then (reply 200 (field "ok" (bool true) (field "pong" (bool true) no_field)), bus)
      else read_body request bus (wire.parse_json request.body)

  abbrev pub after_verify : Request → EventBus → Outcome (Unit {0}) → Handled
  after_verify request bus (answer _) = handle_verified request bus
  after_verify request bus (http_error code detail) = (http_error code detail, bus)
  after_verify request bus (crash e) = (crash e, bus)

  -- `_handle`
  unfoldable pub handle : Request → EventBus → Handled
  handle request bus =
      after_verify request bus
        (verify_signature settings wire request.body request.x_hub_signature_256)
