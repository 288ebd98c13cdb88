-- ===== src/TokenUsage/Records.antt =====
-- The records of negotium/archive/token_usage.py.
use patch_machine.Prelude.{String, ◌≡◌, Bool, true, Option, none, some, List}
use patch_machine.Prelude.Int.{ℤ, pos}
use patch_machine.Python.{
  Value, str, int, bool, Fields, no_field, field, Builtins, Result, ok, ◌>>=◌, get, str_or,
  int_or_zero, bool_or_true, str_or-empty, int_or_zero-int,
}

pub record TokenLimitConfig : Type 0 where
  pub enforcement_enabled : Bool
  pub per_request_max_tokens : ℤ
  pub daily_total_tokens : ℤ
  pub monthly_total_tokens : ℤ

abbrev pub default_limits : TokenLimitConfig
default_limits = record {
  enforcement_enabled = true;
  per_request_max_tokens = pos 16000;
  daily_total_tokens = pos 200000;
  monthly_total_tokens = pos 4000000;
}

unfoldable pub limits_to_dict : TokenLimitConfig → Fields
limits_to_dict l = field "enforcement_enabled" (bool l.enforcement_enabled) (
    field "per_request_max_tokens" (int l.per_request_max_tokens) (
      field "daily_total_tokens" (int l.daily_total_tokens)
        (field "monthly_total_tokens" (int l.monthly_total_tokens) no_field)))

pub record TokenUsageEntry : Type 0 where
  pub provider : String
  pub model : String
  pub task : String
  pub actor : String
  pub prompt_tokens : ℤ
  pub completion_tokens : ℤ
  pub total_tokens : ℤ
  pub occurred_at : String

unfoldable pub entry_to_dict : TokenUsageEntry → Fields
entry_to_dict e = field "provider" (str e.provider) (
    field "model" (str e.model) (
      field "task" (str e.task) (
        field "actor" (str e.actor) (
          field "prompt_tokens" (int e.prompt_tokens) (
            field "completion_tokens" (int e.completion_tokens) (
              field "total_tokens" (int e.total_tokens)
                (field "occurred_at" (str e.occurred_at) no_field)))))))

pub record TokenUsageSummary : Type 0 where
  pub daily_total : ℤ
  pub monthly_total : ℤ
  pub by_provider : List (String × ℤ)
  pub by_task : List (String × ℤ)
  pub by_actor : List (String × ℤ)
  pub recent : List TokenUsageEntry

module _ (py : Builtins) where
  -- `int(payload.get(key, default) or 0)`
  unfoldable pub int_default : Option Value → ℤ → Result ℤ
  int_default none default = ok default
  int_default (some v) default = int_or_zero py (some v)

  -- `TokenLimitConfig.from_mapping`
  unfoldable pub limits_of : Fields → Result TokenLimitConfig
  limits_of d = do
    per_request ← int_default (get "per_request_max_tokens" d) (pos 16000)
    daily ← int_default (get "daily_total_tokens" d) (pos 200000)
    monthly ← int_default (get "monthly_total_tokens" d) (pos 4000000)
    ok (record {
      enforcement_enabled = bool_or_true (get "enforcement_enabled" d);
      per_request_max_tokens = per_request;
      daily_total_tokens = daily;
      monthly_total_tokens = monthly;
    })

  -- The entry of a line.
  unfoldable pub entry_of : Fields → Result TokenUsageEntry
  entry_of d = do
    prompt ← int_or_zero py (get "prompt_tokens" d)
    completion ← int_or_zero py (get "completion_tokens" d)
    total ← int_or_zero py (get "total_tokens" d)
    ok (record {
      provider = str_or py (get "provider" d) "";
      model = str_or py (get "model" d) "";
      task = str_or py (get "task" d) "";
      actor = str_or py (get "actor" d) "";
      prompt_tokens = prompt;
      completion_tokens = completion;
      total_tokens = total;
      occurred_at = str_or py (get "occurred_at" d) "";
    })

  pub limits_of-to_dict : (l : TokenLimitConfig) → limits_of (limits_to_dict l) ≡ ok l
  unfolding limits_of limits_to_dict get int_default bool_or_true
  limits_of-to_dict l = simp int_or_zero-int

  pub entry_of-to_dict : (e : TokenUsageEntry) → entry_of (entry_to_dict e) ≡ ok e
  unfolding entry_of entry_to_dict get
  entry_of-to_dict e = simp (str_or-empty, int_or_zero-int)
