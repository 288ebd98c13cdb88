-- ===== src/Gateway/Routing.antt =====
-- `LlmGateway` of negotium/adapters/llm/gateway.py, and `flatten_message_text` of
-- negotium/domain/ports.py. A provider is a parameter: it takes the messages, the route and a world,
-- and may raise; the temperature and the token limit, which the gateway only hands on, are part of it.
use Prim.Native.String.{◌++◌ as append}
use patch_machine.Prelude.{
  String, Bool, true, false, Option, none, some, List, [], ◌∷◌, ◌==◌, any, find, if◌then◌else◌,
}
use patch_machine.Python.{
  Value, Fields, null, bool, int, float, str, arr, obj, Builtins, get, str_or, as_dict, iterate,
  traverse, is_blank, Result, ok, raise, runtime_error, ◌>>=◌,
}
use patch_machine.Firewall.Context.{LlmMessage}

pub data LlmRoute : Type 0 where
  cloud local : LlmRoute

abbrev pub Provider : Type 0 → Type 0
Provider W = List LlmMessage → LlmRoute → W → Result (String × W)

pub record LlmGateway (W : Type 0) : Type 0 where
  pub cloud_provider : Provider W
  pub local_provider : Option (Provider W)
  pub default_route : LlmRoute
  pub cloud_providers : List (String × Provider W)
  pub local_providers : List (String × Provider W)

-- `part.get("type") == kind`
abbrev has_type : String → Fields → Bool
has_type kind part = elim (get "type" part) [
  | some (str s) ↦ s == kind
  | some _ ↦ false
  | none ↦ false
]

-- What a part of a message shows to a model that reads text; other parts show nothing.
unfoldable pub flatten_part : Builtins → Fields → String
flatten_part py part =
    if has_type "text" part
    then str_or py (get "text" part) ""
    else if has_type "image" part
    then "[image omitted: text-only model]"
    else if has_type "audio" part
    then "[audio omitted: text/vision-only model]"
    else ""

-- `"\n".join(chunk for chunk in rendered if chunk)`
unfoldable pub join_lines : List String → String
join_lines [] = ""
join_lines (chunk ∷ chunks) =
    let rest = join_lines chunks in
    if is_blank chunk
    then rest
    else if is_blank rest
    then chunk
    else append chunk (append "\n" rest)

abbrev flatten_parts : Builtins → Value → Result String
flatten_parts py content = do
  items ← iterate content
  rendered ← traverse (λ part. do d ← as_dict part; ok (flatten_part py d)) items
  ok (join_lines rendered)

-- `flatten_message_text`
unfoldable pub flatten_message_text : Builtins → Value → Result String
flatten_message_text py (str s) = ok s
flatten_message_text py (arr vs) = flatten_parts py (arr vs)
flatten_message_text py (obj fs) = flatten_parts py (obj fs)
flatten_message_text py (int i) = flatten_parts py (int i)
flatten_message_text py (bool b) = flatten_parts py (bool b)
flatten_message_text py (float s) = flatten_parts py (float s)
flatten_message_text py null = flatten_parts py null

-- The three patterns of `_SECRET_PATTERNS`, and `pattern.search(text)`.
pub data SecretPattern : Type 0 where
  openai_key github_key aws_key : SecretPattern

abbrev pub gateway_patterns : List SecretPattern
gateway_patterns = openai_key ∷ github_key ∷ aws_key ∷ []

abbrev pub Search : Type 0
Search = SecretPattern → String → Bool

-- `_needs_local`
unfoldable pub needs_local : Builtins → Search → List LlmMessage → Result Bool
needs_local py search [] = ok false
needs_local py search (m ∷ ms) =
    let rest = needs_local py search ms in
    do
      text ← flatten_message_text py m.content
      if any (λ pattern. search pattern text) gateway_patterns then ok true else rest

abbrev pub effective_route : Option LlmRoute → LlmRoute → LlmRoute
effective_route none default = default
effective_route (some route) default = route

-- The route after the test for secrets.
abbrev pub guarded : Bool → LlmRoute → LlmRoute
guarded true route = local
guarded false route = route

abbrev pub no_local_provider : String
no_local_provider =
    "local LLM route requested but no local provider is configured. Configure NG_LLM_PROVIDER=ollama|vllm in Phase 4."

module _ {W : Type 0} where
  abbrev or_raise : Option (Provider W) → Result (Provider W)
  or_raise none = raise (runtime_error no_local_provider)
  or_raise (some provider) = ok provider

  -- `_resolve_provider`
  unfoldable pub resolve_provider : LlmGateway W → LlmRoute → Result (Provider W)
  resolve_provider gateway cloud = ok gateway.cloud_provider
  resolve_provider gateway local = or_raise gateway.local_provider

  abbrev named : String → List (String × Provider W) → Option (String × Provider W)
  named name providers = find (λ entry. entry.0 == name) providers

  abbrev providers_of : LlmGateway W → LlmRoute → List (String × Provider W)
  providers_of gateway local = gateway.local_providers
  providers_of gateway cloud = gateway.cloud_providers

  -- `_resolve_named_provider`
  unfoldable pub resolve_named_provider : LlmGateway W → String → LlmRoute → Result (Provider W)
  resolve_named_provider gateway provider_name route =
      elim (named provider_name (providers_of gateway route)) [
        | some (name, provider) ↦ ok provider
        | none ↦
            if provider_name == "fake"
            then ok gateway.cloud_provider
            else resolve_provider gateway route
      ]

  -- `complete`
  unfoldable pub complete :
      Builtins → Search → LlmGateway W → List LlmMessage → Option LlmRoute → W → Result (String × W)
  complete py search gateway messages route w = do
    secret ← needs_local py search messages
    let effective = guarded secret (effective_route route gateway.default_route)
    provider ← resolve_provider gateway effective
    provider messages effective w

  -- `complete_with_provider`
  unfoldable pub complete_with_provider :
      LlmGateway W → String → LlmRoute → List LlmMessage → W → Result (String × W)
  complete_with_provider gateway provider_name route messages w = do
    provider ← resolve_named_provider gateway provider_name route
    provider messages route w
