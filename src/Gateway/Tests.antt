-- ===== src/Gateway/Tests.antt =====
-- Tests of negotium/adapters/llm/gateway.py with providers that say who they are.
use patch_machine.Prelude.{ℕ, String, ◌≡◌, refl, true, false, none, some, [], ◌∷◌, ◌==◌, any}
use patch_machine.Prelude.Int.{pos}
use patch_machine.Python.{
  Builtins, ok, raise, runtime_error, str, arr, obj, item, no_item, field, no_field, get, iterate,
  traverse, as_dict, str_or,
}
use patch_machine.Firewall.Context.{LlmMessage}
use patch_machine.Gateway.Routing.{
  LlmGateway, Provider, cloud, local, Search, openai_key, flatten_message_text, flatten_part,
  join_lines, needs_local, resolve_provider, complete, no_local_provider,
}
use patch_machine.Gateway.Safety.{complete_secret}

abbrev builtins : Builtins
builtins = record {
  repr = λ v. "";
  parse_int = λ v. ok (pos 0);
  int_float = λ s. ok (pos 0);
  lower = λ s. s;
}

abbrev search : Search
search openai_key text = text == "sk-1"
search _ text = false

abbrev says : String → Provider ℕ
says name messages route w = ok (name, w)

abbrev gateway : LlmGateway ℕ
gateway = record {
  cloud_provider = says "openai";
  local_provider = some (says "vllm");
  default_route = cloud;
  cloud_providers = [];
  local_providers = [];
}

abbrev elsewhere : LlmGateway ℕ
elsewhere = record gateway { cloud_provider = says "gemini"; default_route = local }

abbrev leak : LlmMessage
leak = record {
  role = "user";
  content =
      arr (item (obj (field "type" (str "text") (field "text" (str "sk-1") no_field))) no_item);
}

leak_found : needs_local builtins search (leak ∷ []) ≡ ok true
unfolding needs_local flatten_message_text iterate traverse as_dict any join_lines flatten_part get
    str_or
leak_found = refl

complete_secret_example :
    complete builtins search gateway (leak ∷ []) (some cloud) 0
    ≡ complete builtins search elsewhere (leak ∷ []) none 0
complete_secret_example =
    complete_secret builtins search gateway elsewhere (leak ∷ []) (some cloud) none 0 leak_found
      refl

kept_at_home : complete builtins search gateway (leak ∷ []) (some cloud) 0 ≡ ok ("vllm", 0)
unfolding complete resolve_provider needs_local flatten_message_text iterate traverse as_dict any
    join_lines flatten_part get str_or
kept_at_home = refl

no_home :
    complete builtins search (record gateway { local_provider = none }) (leak ∷ []) (some cloud) 0
    ≡ raise (runtime_error no_local_provider)
unfolding complete resolve_provider needs_local flatten_message_text iterate traverse as_dict any
    join_lines flatten_part get str_or
no_home = refl
