-- ===== src/Gateway/Safety.antt =====
-- A message with a secret never reaches a cloud provider through `LlmGateway.complete`.
use patch_machine.Prelude.{◌≡◌, refl, true, Option, List}
use patch_machine.Python.{Builtins, ok}
use patch_machine.Firewall.Context.{LlmMessage}
use patch_machine.Gateway.Routing.{
  LlmRoute, local, LlmGateway, Search, needs_local, resolve_provider, complete,
}

module _ {W : Type 0} (py : Builtins) (search : Search) where
  resolve_provider_local :
      (gateway gateway' : LlmGateway W)
      → gateway.local_provider ≡ gateway'.local_provider
      → resolve_provider gateway local ≡ resolve_provider gateway' local
  unfolding resolve_provider
  resolve_provider_local gateway gateway' same = rw same refl

  -- What `complete` does with messages in which a secret is found depends on the local provider
  -- alone: two gateways with the same local provider, or none, and any cloud providers and default
  -- routes give the same result on every route, so no cloud provider is asked.
  pub complete_secret :
      (gateway gateway' : LlmGateway W) (messages : List LlmMessage)
      (route route' : Option LlmRoute) (w : W)
      → needs_local py search messages ≡ ok true
      → gateway.local_provider ≡ gateway'.local_provider
      → complete py search gateway messages route w ≡ complete py search gateway' messages route' w
  unfolding complete
  complete_secret gateway gateway' messages route route' w secret same =
      rw (secret, resolve_provider_local gateway gateway' same) refl
