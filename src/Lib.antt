-- ===== src/Lib.antt =====
-- Negotium (patch_machine): a verification library for the Python backend under negotium/.
--
-- The program is an office and coding assistant. Issues arrive from GitHub and Discord adapters on an
-- in-process event bus (negotium/application/event_bus.py); one consumer, the orchestrator
-- (negotium/application/orchestrator.py), hands each to the agent graph (negotium/agents/graph.py) of
-- PM, Developer and Reviewer. A FastAPI application (negotium/app/api) serves the users: behind
-- `_require` every handler works on stores of JSON files (negotium/archive), among them the accounts
-- and sessions, the roles and departments, the token budget and the requests for deletion. What goes
-- out to a language model passes the context firewall
-- (negotium/app/services/context_firewall_service.py) and the gateway that routes it
-- (negotium/adapters/llm/gateway.py).
--
-- How code is modelled:
--   * A JSON file is the value that `json.loads` makes of it (`Value` of Python/Values), or none if
--     there is no file; the text of JSON is not modelled. A method of a store takes the file and
--     returns what the method returns together with the new file, or an exception (`Result` of
--     Python/Results). File locks, directories and logging are left out: a method runs alone.
--   * `from_mapping`, `create` and `to_dict` are functions between dicts and records, with Python's
--     defaults, truth values and conversions. What `str`, `int` and `float` make of unusual values
--     is a parameter, `Builtins`.
--   * Random tokens, ids and the time are arguments. Cryptography, base64, ISO times
--     (`Crypto` of Auth/Passwords, `Cipher` of Secrets/Store), the regular expressions of the firewall
--     and the gateway (`Re` of Firewall/Scan; those of the patch policy are written out), path patterns
--     (`Paths` of Firewall/Decision), the hash of a context, the providers of a language model
--     (`Provider` of Gateway/Routing), the agents (`Agents` of Agents/Graph), LangGraph (`Runner` of
--     Agents/Compiled), git (`Git` of Patch/Commands), HMAC and the parse of a body (`Wire` of
--     Webhook/Handler), `str.isalnum` and `dict` of a list are parameters, with what a theorem needs of
--     them as its hypotheses.
--   * Python's integers are ℤ over the native numbers (Prelude/Int); counts, times in microseconds
--     and iterations are numbers. A float is kept as its text.
--
-- The files:
--   * Prelude, Python: shared names, lists, integers; values, exceptions, texts, sorted sets and the
--     records of a document.
--   * Access: negotium/archive/access_control.py. Records (the data classes), Defaults (the default
--     payload and the normalizing of what is read), Hierarchy (the walk up the departments), Store
--     (`AccessControlStore`), Permissions (`has_permission`); Documents, Walk, Forest, Users, Lockout,
--     Grants, Distinct, Deciding, Recovery and Policies hold what is proved of them.
--   * Auth: negotium/archive/auth_store.py. Records, Passwords (hashing, verifying, session times),
--     Store (`AuthStore`); Documents, Credentials, Sessions, Tokens, Requests and History (the calls in
--     any order, as a step relation) hold the proofs.
--   * Api: `_extract_token`, `_resolve_authenticated_user` and `_require` of negotium/app/api/_shared.py
--     in Guard, over the files of Auth and Access; Outcome is what a handler ends with; Admission holds
--     the proofs. Action is a handler on the three stores of accounts, access control and audit lines,
--     which keep what was written before an error. Schemas are the payloads of
--     negotium/app/schemas/core.py; Keeper is `_ensure_acl_keeps_admin_access`, Views what handlers
--     answer with; Accounts is negotium/app/api/auth.py, Members and Requests are the handlers of
--     negotium/app/api/admin.py on accounts and access control; Calls has the routes that call
--     `_require`, each by itself, and Visits the sequences of calls of the routes that do not. Triples,
--     Hoare, Lasting and Logged are rules for actions, step by step; Behind, Audited, Keeping,
--     Administrators, Membership, Refusals, Installed, Setup, FirstAdmin, Approval and Logout hold the
--     proofs, Runs and Faults the examples.
--   * Audit: negotium/archive/audit_log.py with `iter_jsonl_records` of negotium/archive/_store.py
--     (Python/Jsonl); Recent holds the proof.
--   * Scope: `_position_rank`, `_descendant_department_ids`, `_assignment_scope` and
--     `_ensure_owner_in_scope` of negotium/app/api/_shared.py in Departments and Assignment; Below, Total
--     and InScope hold the proofs.
--   * Webhook: negotium/adapters/ingestion/github_webhook.py over the bus; Payload is
--     `normalize_github_payload`, Handler the router; Enqueued holds the proofs.
--   * Patch: Texts (lines, words and parts of texts), Files (a directory of JSON files), Runs and Events
--     (negotium/archive/patch_runs.py), Attempts (negotium/archive/patch_execution.py), Policy, Commands
--     and Execution (negotium/app/services/patch_execution_service.py, up to `apply_patch_run_diff`,
--     over git as a step of a working tree); Untouched, Applied, Branches, Typed and Listing hold the proofs.
--   * Volatile: negotium/archive/volatile_memory.py over a directory of files (Python/Files); Reading and
--     Names hold the proofs.
--   * Firewall: negotium/app/services/context_firewall_service.py. Policy (its types, the policy file),
--     Scan (`_sanitize_value`, `_sanitize_string`, `_abstract_for_frontier`), Decision (`_decision_for` and
--     the figures beside it), Context (`sanitize_context`, `sanitize_text`, `sanitize_llm_messages`);
--     Levels, Verdicts, Redaction and Outgoing hold the proofs.
--   * TokenUsage: negotium/archive/token_usage.py. Records, Store; Totals and Budget hold the proofs.
--   * Deletion: negotium/archive/deletion_requests.py in Store, the two deciding handlers of
--     negotium/app/api/memory.py in Handlers; Decisions holds the proofs.
--   * Gateway: `LlmGateway` of negotium/adapters/llm/gateway.py and `flatten_message_text` of
--     negotium/domain/ports.py in Routing; Safety holds the proof.
--   * Bus: Queue is `EventBus` over an abstract `asyncio.Queue`; Consumer is `Orchestrator.run_forever`
--     alone, with its retries; System is the interleaving of adapters and the one consumer, which
--     negotium/app/main.py starts, as a step relation; Delivery and Deadlock hold the proofs.
--   * Agents: Graph is `AgentGraph` with the manual loop, Compiled the graph of
--     `_try_compile_langgraph`; Rounds and Compiled hold the proofs. Domain has the issue events.
--   * Secrets: negotium/archive/secret_store.py in Bytes (xor and key stream), Sorted (the order
--     of keys that JSON is written in), Store and Masked; Streams and Vault hold the proofs, and Json is
--     the JSON of the tests.
--   * Tests of each part are concrete runs, with examples of the theorems listed below.
--
-- Loops and their fuel:
--   * The walk up the departments has one step of fuel more than there are departments, which is enough
--     since each step visits a new one.
--   * The walk down the departments has one step of fuel more than there are roots and departments,
--     which is enough since a department is put into the queue once at most.
--   * The consumer loop has fuel for its rounds; the retry limit leaves so many deliveries at most.
--   * The manual loop of the agents has `max_iterations + 1` rounds, which is enough since a round that
--     is not the last raises the iteration.
--   * The loop of the key stream has a step of fuel more than bytes are asked for, which is enough where
--     a digest has a byte at least.
--   * All else is recursion on lists, texts and values.
--
-- Not modelled: the React frontend, the prompts and skills, the language model adapters, the Discord
-- bot and the GitHub client, the Office and MCP services, the artifacts, tests and drafts of patch runs,
-- the other stores of negotium/archive and the other handlers of negotium/app/api, which mostly pass
-- texts between stores and language models. Two calls at the same time on one file, which the stores do
-- not serialize as a whole, are not modelled either. Python texts with lone surrogates, and dict keys
-- that are no texts, are outside the model.
mod Prelude
pub mod Python
pub mod Access
pub mod Domain
pub mod Auth
pub mod Bus
pub mod Agents
pub mod Firewall
pub mod TokenUsage
pub mod Api
pub mod Deletion
pub mod Gateway
pub mod Audit
pub mod Webhook
pub mod Patch
pub mod Scope
pub mod Volatile
pub mod Secrets
