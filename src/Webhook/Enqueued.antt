-- ===== src/Webhook/Enqueued.antt =====
-- What a call of the GitHub webhook, negotium/adapters/ingestion/github_webhook.py, does to the bus.
use patch_machine.Prelude.{
  String, ◌≡◌, refl, ◌⊎◌, inl, inr, Bool, true, false, Option, none, some, ◌==◌, eq_iff, Bool-cases,
  Option-cases, arith,
}
use patch_machine.Python.{Value, Builtins, Result, ok, raise}
use patch_machine.Domain.{IssueEvent}
use patch_machine.Bus.Queue.{EventBus, Stamp, publish_nowait, full, put, envelope}
use patch_machine.Bus.System.{System, Reach, arrive, next, after_publish}
use mathlib.Core.Path.{subst}
use patch_machine.Api.Outcome.{Outcome, answer, http_error, crash}
use patch_machine.Api.Guard.{starts_with}
use patch_machine.Webhook.Payload.{EventStamp, normalize_github_payload}
use patch_machine.Webhook.Handler.{
  GitHubSettings, Wire, Request, after_equals, no_secret, compare_digest, verify_given,
  verify_signature, of_comparison, is_allowed, accept, read_body, handle_verified, after_verify,
  handle, event_name,
}

-- The signature of the body under the secret.
abbrev pub IsSigned : Wire → String → Request → Type 0
IsSigned wire secret request =
    (signature : String) × (request.x_hub_signature_256 ≡ some signature)
    × (starts_with "sha256=" signature ≡ true)
    × (after_equals signature ≡ wire.hmac_sha256 secret request.body)

compare_digest-same : (a b : String) → compare_digest a b ≡ ok true → a ≡ b
unfolding compare_digest
compare_digest-same a b h = (eq_iff a b).0 (ground (arith, h))

of_comparison_answer : (r : Result Bool) → of_comparison r ≡ answer tt → r ≡ ok true
of_comparison_answer (ok true) h = refl
of_comparison_answer (ok false) h = absurd (ground (arith, h))
of_comparison_answer (raise e) h = absurd (ground (arith, h))

verify_given-IsSigned :
    (wire : Wire) (secret : String) (request : Request)
    → verify_given wire secret request.body request.x_hub_signature_256 ≡ answer tt
    → IsSigned wire secret request
unfolding verify_given
verify_given-IsSigned wire secret request h = elim (Option-cases request.x_hub_signature_256) [
  | inl missing ↦ absurd (ground (arith, missing, h))
  | inr (signature, given) ↦ elim (Bool-cases (starts_with "sha256=" signature)) [
    | inl prefixed ↦ (
      signature,
      given,
      prefixed,
      compare_digest-same (after_equals signature) (wire.hmac_sha256 secret request.body) (
          of_comparison_answer
            (compare_digest (after_equals signature) (wire.hmac_sha256 secret request.body))
            (ground (arith, given, prefixed, h))),
    )
    | inr other ↦ absurd (ground (arith, given, other, h))
  ]
]

verify_signature-IsSigned :
    (settings : GitHubSettings) (wire : Wire) (request : Request)
    → verify_signature settings wire request.body request.x_hub_signature_256 ≡ answer tt
    → (no_secret settings ≡ true) ⊎ IsSigned wire settings.webhook_secret request
unfolding verify_signature
verify_signature-IsSigned settings wire request h = elim (Bool-cases (no_secret settings)) [
  | inl unset ↦ inl unset
  | inr set ↦
      inr (verify_given-IsSigned wire settings.webhook_secret request (ground (arith, set, h)))
]

module _ (py : Builtins) (wire : Wire) (settings : GitHubSettings) (draw : EventStamp)
    (stamp : Stamp) where
  -- The event that was put into the bus.
  abbrev pub Enqueues : Request → EventBus → EventBus → Type 0
  Enqueues request bus bus' =
      (payload : Value) × (event : IssueEvent) × (wire.parse_json request.body ≡ some payload)
      × (normalize_github_payload py draw (event_name request.x_github_event) payload
          ≡ ok (some event))
      × (is_allowed settings event ≡ true)
      × (full bus ≡ false)
      × (bus' ≡ put (envelope event stamp) bus)

  accept_bus :
      (bus : EventBus) (r : Result (Option IssueEvent))
      → let bus' = (accept py wire settings draw stamp bus r).1 in
        (bus' ≡ bus)
        ⊎ ((event : IssueEvent) × (r ≡ ok (some event))
            × (is_allowed settings event ≡ true)
            × (full bus ≡ false)
            × (bus' ≡ put (envelope event stamp) bus))
  unfolding accept publish_nowait
  accept_bus bus (raise e) = inl refl
  accept_bus bus (ok none) = inl refl
  accept_bus bus (ok (some event)) = elim (Bool-cases (is_allowed settings event)) [
    | inr refused ↦ inl (rw refused refl)
    | inl allowed ↦ elim (Bool-cases (full bus)) [
      | inl no_room ↦ inl (rw (allowed, no_room) refl)
      | inr room ↦ inr (event, refl, allowed, room, rw (allowed, room) refl)
    ]
  ]

  read_body_bus :
      (request : Request) (bus : EventBus) (parsed : Option Value)
      → wire.parse_json request.body ≡ parsed
      → let bus' = (read_body py wire settings draw stamp request bus parsed).1 in
        (bus' ≡ bus) ⊎ Enqueues request bus bus'
  unfolding read_body
  read_body_bus request bus none e = inl refl
  read_body_bus request bus (some payload) e =
      elim (accept_bus bus
        (normalize_github_payload py draw (event_name request.x_github_event) payload)) [
          | inl same ↦ inl same
          | inr (event, normal, allowed, room, enqueued) ↦
              inr (payload, event, e, normal, allowed, room, enqueued)
        ]

  handle_verified_bus :
      (request : Request) (bus : EventBus)
      → let bus' = (handle_verified py wire settings draw stamp request bus).1 in
        (bus' ≡ bus) ⊎ Enqueues request bus bus'
  unfolding handle_verified
  handle_verified_bus request bus =
      elim (Bool-cases (event_name request.x_github_event == "ping")) [
        | inl ping ↦ inl (rw ping refl)
        | inr other ↦ rw other (read_body_bus request bus (wire.parse_json request.body) refl)
      ]

  after_verify_bus :
      (request : Request) (bus : EventBus) (verified : Outcome (Unit {0}))
      → let bus' = (after_verify py wire settings draw stamp request bus verified).1 in
        (bus' ≡ bus) ⊎ (Enqueues request bus bus' × (verified ≡ answer tt))
  after_verify_bus request bus (answer tt) = elim (handle_verified_bus request bus) [
    | inl same ↦ inl same
    | inr enqueued ↦ inr (enqueued, refl)
  ]
  after_verify_bus request bus (http_error code detail) = inl refl
  after_verify_bus request bus (crash e) = inl refl

  -- A call of the webhook leaves the bus as it was, or there was room, and it appends exactly one
  -- envelope: of the event that the body means, from an allowed repository with the trigger label.
  -- Then no secret is configured, or the header holds the signature of the body under the secret.
  pub handle-Enqueues :
      (request : Request) (bus : EventBus)
      → let bus' = (handle py wire settings draw stamp request bus).1 in
        (bus' ≡ bus)
        ⊎ (Enqueues request bus bus'
            × ((no_secret settings ≡ true) ⊎ IsSigned wire settings.webhook_secret request))
  unfolding handle
  handle-Enqueues request bus =
      let verified = verify_signature settings wire request.body request.x_hub_signature_256 in
      elim (after_verify_bus request bus verified) [
        | inl same ↦ inl same
        | inr (enqueued, passed) ↦
            inr (enqueued, verify_signature-IsSigned settings wire request passed)
      ]

  -- A webhook call is a step of the bus with its consumer, or none at all: what holds of every
  -- reachable state, the bound of the queue say, holds with the webhook as an adapter.
  pub handle-Reach :
      (start_state s : System) (request : Request)
      → Reach start_state s
      → Reach start_state (record s { bus = (handle py wire settings draw stamp request s.bus).1 })
  handle-Reach start_state s request reached = elim (handle-Enqueues request s.bus) [
    | inl same ↦ rw same reached
    | inr ((payload, event, _, _, _, room, enqueued), _) ↦
        let arrived : after_publish s (publish_nowait event stamp s.bus)
            ≡ record s { bus = put (envelope event stamp) s.bus } =
          unfold publish_nowait in ground (arith, room) in
        rw enqueued
          (subst (λ (t : System). Reach start_state t) arrived (next reached (arrive event stamp)))
  ]
