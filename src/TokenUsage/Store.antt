-- ===== src/TokenUsage/Store.antt =====
-- `TokenUsageStore` of negotium/archive/token_usage.py: the limits file, and a file of JSON lines for
-- every day. The order of the day files shows only in the order of dict keys.
use patch_machine.Prelude.{
  ℕ, ◌+◌, String, Bool, not, ◌&&◌, Option, none, some, List, [], ◌∷◌, ◌++◌, ◌==◌, take,
  if◌then◌else◌,
}
use patch_machine.Prelude.Int.{ℤ, pos, ◌+ℤ◌, leb_ℤ, clip}
use patch_machine.Python.{
  Value, Line, blank, broken, json, null, bool, int, float, str, arr, obj, Builtins, Result, ok,
  ◌>>=◌, is_blank,
}
use patch_machine.TokenUsage.Records.{
  TokenLimitConfig, default_limits, limits_to_dict, limits_of, TokenUsageEntry, entry_to_dict,
  entry_of, TokenUsageSummary,
}

-- A time: its month "2026-01", its day "05", and its text.
pub record Instant : Type 0 where
  pub month : String
  pub day : String
  pub isoformat : String

pub record DayFile : Type 0 where
  pub month : String
  pub day : String
  pub lines : List Line

-- `limits`: none if the file is missing or cannot be read.
pub record UsageFiles : Type 0 where
  pub limits : Option Value
  pub days : List DayFile

abbrev pub is_day : Instant → DayFile → Bool
is_day now file = file.month == now.month && file.day == now.day

-- The append to `_daily_path`.
unfoldable pub append_line : Instant → Line → List DayFile → List DayFile
append_line now line [] = record { month = now.month; day = now.day; lines = line ∷ [] } ∷ []
append_line now line (f ∷ fs) =
    let rest = append_line now line fs in
    if is_day now f then record f { lines = f.lines ++ line ∷ [] } ∷ fs else f ∷ rest

unfoldable pub sum_tokens : List TokenUsageEntry → ℤ
sum_tokens [] = pos 0
sum_tokens (e ∷ es) = e.total_tokens +ℤ sum_tokens es

-- `counts[key] = counts.get(key, 0) + n`
unfoldable pub add_total : String → ℤ → List (String × ℤ) → List (String × ℤ)
add_total key n [] = (key, n) ∷ []
add_total key n ((k, m) ∷ rest) =
    let rest' = add_total key n rest in if k == key then (k, m +ℤ n) ∷ rest else (k, m) ∷ rest'

-- `key or "unknown"`
abbrev or_unknown : String → String
or_unknown key = if is_blank key then "unknown" else key

unfoldable pub tally :
    (TokenUsageEntry → String) → List TokenUsageEntry → List (String × ℤ) → List (String × ℤ)
tally key [] counts = counts
tally key (e ∷ es) counts = tally key es (add_total (or_unknown (key e)) e.total_tokens counts)

unfoldable pub reverse_onto : List TokenUsageEntry → List TokenUsageEntry → List TokenUsageEntry
reverse_onto [] acc = acc
reverse_onto (e ∷ es) acc = reverse_onto es (e ∷ acc)

abbrev pub summary_of : ℕ → List TokenUsageEntry → List TokenUsageEntry → TokenUsageSummary
summary_of recent_limit daily_entries month_entries = record {
  daily_total = sum_tokens daily_entries;
  monthly_total = sum_tokens month_entries;
  by_provider = tally (λ e. e.provider) month_entries [];
  by_task = tally (λ e. e.task) month_entries [];
  by_actor = tally (λ e. e.actor) month_entries [];
  recent = take recent_limit (reverse_onto daily_entries []);
}

-- `TokenLimitExceededError`
pub data Scope : Type 0 where
  per_request daily monthly : Scope

pub record Exceeded : Type 0 where
  pub scope : Scope
  pub limit : ℤ
  pub current : ℤ
  pub attempted : ℤ

-- `limit > 0 and total > limit`
abbrev pub is_over : ℤ → ℤ → Bool
is_over limit total = not (leb_ℤ limit (pos 0)) && not (leb_ℤ total limit)

abbrev pub over_budget : TokenLimitConfig → ℤ → TokenUsageSummary → Option Exceeded
over_budget limits attempted s =
    if is_over limits.daily_total_tokens (s.daily_total +ℤ attempted)
    then some (record {
      scope = daily;
      limit = limits.daily_total_tokens;
      current = s.daily_total;
      attempted = attempted;
    })
    else if is_over limits.monthly_total_tokens (s.monthly_total +ℤ attempted)
    then some (record {
      scope = monthly;
      limit = limits.monthly_total_tokens;
      current = s.monthly_total;
      attempted = attempted;
    })
    else none

module _ (py : Builtins) where
  -- `_read_jsonl`
  unfoldable pub read_jsonl : List Line → Result (List TokenUsageEntry)
  read_jsonl [] = ok []
  read_jsonl (json (obj d) ∷ ls) = do e ← entry_of py d; es ← read_jsonl ls; ok (e ∷ es)
  read_jsonl (json (arr vs) ∷ ls) = read_jsonl ls
  read_jsonl (json (str s) ∷ ls) = read_jsonl ls
  read_jsonl (json (int i) ∷ ls) = read_jsonl ls
  read_jsonl (json (bool b) ∷ ls) = read_jsonl ls
  read_jsonl (json (float s) ∷ ls) = read_jsonl ls
  read_jsonl (json null ∷ ls) = read_jsonl ls
  read_jsonl (blank ∷ ls) = read_jsonl ls
  read_jsonl (broken ∷ ls) = read_jsonl ls

  -- `_read_day`
  unfoldable pub read_day : Instant → List DayFile → Result (List TokenUsageEntry)
  read_day now [] = ok []
  read_day now (f ∷ fs) =
      let rest = read_day now fs in if is_day now f then read_jsonl f.lines else rest

  -- The files that `glob` finds for the month, one after the other.
  unfoldable pub read_month : String → List DayFile → Result (List TokenUsageEntry)
  read_month month [] = ok []
  read_month month (f ∷ fs) =
      let rest = read_month month fs in
      if not (f.month == month)
      then rest
      else do es ← read_jsonl f.lines; more ← rest; ok (es ++ more)

  unfoldable pub summary : Instant → ℕ → UsageFiles → Result TokenUsageSummary
  summary now recent_limit files = do
    daily_entries ← read_day now files.days
    month_entries ← read_month now.month files.days
    ok (summary_of recent_limit daily_entries month_entries)

  abbrev limits_from : Option Value → Result TokenLimitConfig
  limits_from (some (obj d)) = limits_of py d
  limits_from _ = ok default_limits

  unfoldable pub read_limits : UsageFiles → Result TokenLimitConfig
  read_limits files = limits_from files.limits

  -- The tests of `check_limits`, under the limits that were read.
  unfoldable pub check_against :
      TokenLimitConfig → ℤ → Instant → UsageFiles → Result (Option Exceeded)
  check_against limits attempted now files =
      let rest = (do s ← summary now 50 files; ok (over_budget limits attempted s)) in
      if not limits.enforcement_enabled
      then ok none
      else if is_over limits.per_request_max_tokens attempted
      then ok (
          some (record {
            scope = per_request;
            limit = limits.per_request_max_tokens;
            current = pos 0;
            attempted = attempted;
          }))
      else rest

  -- `check_limits`: the `TokenLimitExceededError` that it raises, or none.
  unfoldable pub check_limits : ℤ → Instant → UsageFiles → Result (Option Exceeded)
  check_limits attempted now files = do
    limits ← read_limits files
    check_against limits attempted now files

abbrev pub usage_entry : String → String → String → String → ℤ → ℤ → Instant → TokenUsageEntry
usage_entry provider model task actor prompt_tokens completion_tokens now = record {
  provider = provider;
  model = model;
  task = task;
  actor = actor;
  prompt_tokens = pos (clip prompt_tokens);
  completion_tokens = pos (clip completion_tokens);
  total_tokens = pos (clip prompt_tokens + clip completion_tokens);
  occurred_at = now.isoformat;
}

-- `record`, of the entry that it makes
unfoldable pub record_usage : TokenUsageEntry → Instant → UsageFiles → UsageFiles
record_usage entry now files = record files {
  days = append_line now (json (obj (entry_to_dict entry))) files.days;
}

unfoldable pub write_limits : TokenLimitConfig → UsageFiles → UsageFiles
write_limits limits files = record files { limits = some (obj (limits_to_dict limits)) }
