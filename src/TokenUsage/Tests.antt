-- ===== src/TokenUsage/Tests.antt =====
-- Tests of negotium/archive/token_usage.py on two day files, and the theorems at them.
use patch_machine.Prelude.{◌≡◌, refl, true, false, none, some, [], ◌∷◌}
use patch_machine.Prelude.Int.{pos, ◌+ℤ◌}
use patch_machine.Python.{json, blank, obj, Builtins, ok, get, str_or, int_or_zero, bool_or_true}
use patch_machine.TokenUsage.Records.{
  TokenLimitConfig, TokenUsageEntry, TokenUsageSummary, limits_to_dict, limits_of, int_default,
  entry_to_dict, entry_of,
}
use patch_machine.TokenUsage.Store.{
  Instant, UsageFiles, is_over, usage_entry, sum_tokens, tally, add_total, reverse_onto, read_jsonl,
  read_day, read_month, summary, read_limits, write_limits, check_against, check_limits,
  record_usage,
}
use patch_machine.TokenUsage.Budget.{check_limits-record_usage, read_limits-write_limits}

abbrev builtins : Builtins
builtins = record {
  repr = λ v. "";
  parse_int = λ v. ok (pos 0);
  int_float = λ s. ok (pos 0);
  lower = λ s. s;
}

abbrev now : Instant
now = record { month = "2026-01"; day = "05"; isoformat = "2026-01-05T09:00" }

abbrev limits : TokenLimitConfig
limits = record {
  enforcement_enabled = true;
  per_request_max_tokens = pos 100;
  daily_total_tokens = pos 100;
  monthly_total_tokens = pos 200;
}

abbrev used : TokenUsageEntry
used = usage_entry "openai" "gpt" "chat" "kim" (pos 10) (pos 20) now

abbrev files : UsageFiles
files = record {
  limits = some (obj (limits_to_dict limits));
  days =
      record { month = "2026-01"; day = "04"; lines = json (obj (entry_to_dict used)) ∷ [] }
      ∷ record {
        month = "2026-01";
        day = "05";
        lines = blank ∷ json (obj (entry_to_dict used)) ∷ [];
      }
      ∷ [];
}

abbrev before : TokenUsageSummary
before = record {
  daily_total = pos 30;
  monthly_total = pos 60;
  by_provider = ("openai", pos 60) ∷ [];
  by_task = ("chat", pos 60) ∷ [];
  by_actor = ("kim", pos 60) ∷ [];
  recent = used ∷ [];
}

summed : summary builtins now 50 files ≡ ok before
unfolding summary read_day read_jsonl entry_of int_or_zero get entry_to_dict read_month sum_tokens
    tally reverse_onto ◌+ℤ◌ add_total str_or
summed = refl

accepted : check_limits builtins (pos 40) now files ≡ ok none
unfolding check_limits read_limits limits_of int_default get limits_to_dict int_or_zero
    check_against bool_or_true summary read_day read_jsonl entry_of entry_to_dict read_month ◌+ℤ◌
    sum_tokens
accepted = refl

limits_read : read_limits builtins (write_limits limits files) ≡ ok limits
limits_read = read_limits-write_limits builtins limits files

check_limits-record_usage_example :
    (s : TokenUsageSummary) × (summary builtins now 50 (record_usage used now files) ≡ ok s)
    × (is_over (pos 100) s.daily_total ≡ false)
    × (is_over (pos 200) s.monthly_total ≡ false)
unfolding write_limits
check_limits-record_usage_example =
    check_limits-record_usage builtins (pos 40) now files limits used limits_read refl accepted refl
