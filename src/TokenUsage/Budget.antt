-- ===== src/TokenUsage/Budget.antt =====
-- The budget of negotium/archive/token_usage.py holds, and its breakdowns add up.
use patch_machine.Prelude.{
  ℕ, String, ◌≡◌, sym, ap, ◌∙◌, true, false, none, List, [], ◌∷◌, ◌==◌, arith, Bool-cases, inl, inr,
}
use patch_machine.Prelude.Int.{
  ℤ, pos, ◌+ℤ◌, leb_ℤ, add-balance, add_assoc_ℤ, add_comm_ℤ, add_zero_ℤ, zero_add_ℤ, add_swap_ℤ,
}
use patch_machine.Python.{Builtins, ok, Result-cases}
use patch_machine.TokenUsage.Records.{
  TokenLimitConfig, TokenUsageEntry, TokenUsageSummary, limits_of-to_dict,
}
use patch_machine.TokenUsage.Store.{
  Instant, UsageFiles, is_over, over_budget, summary, summary_of, sum_tokens, tally, add_total,
  read_limits, write_limits, check_against, check_limits, record_usage, read_day, read_month,
}
use patch_machine.TokenUsage.Totals.{summary-record_usage}

-- A smaller amount stays within a limit that a larger one keeps.
is_over_smaller :
    (limit used attempted spent : ℤ)
    → leb_ℤ spent attempted ≡ true
    → is_over limit (used +ℤ attempted) ≡ false
    → is_over limit (used +ℤ spent) ≡ false
is_over_smaller limit used attempted spent small within =
    ground (arith, small, within, add-balance used attempted, add-balance used spent)

module _ (py : Builtins) where
  -- What limits that are enforced and not exceeded say of the summary.
  check_limits_passed :
      (attempted : ℤ) (now : Instant) (files : UsageFiles) (limits : TokenLimitConfig)
      → read_limits py files ≡ ok limits
      → limits.enforcement_enabled ≡ true
      → check_limits py attempted now files ≡ ok none
      → (s : TokenUsageSummary) × (summary py now 50 files ≡ ok s)
        × (is_over limits.per_request_max_tokens attempted ≡ false)
        × (is_over limits.daily_total_tokens (s.daily_total +ℤ attempted) ≡ false)
        × (is_over limits.monthly_total_tokens (s.monthly_total +ℤ attempted) ≡ false)
  unfolding check_limits check_against
  check_limits_passed attempted now files limits reads enforced passed =
      elim (Bool-cases (is_over limits.per_request_max_tokens attempted)) [
        | inl over ↦ absurd (ground (arith, reads, enforced, over, passed))
        | inr within ↦ elim (Result-cases (summary py now 50 files)) [
          | inl (x, failed) ↦ absurd (ground (arith, reads, enforced, within, failed, passed))
          | inr (s, made) ↦
              let settled : over_budget limits attempted s ≡ none =
                ground (arith, reads, enforced, within, made, passed) in
              (s, made, within, ground (arith, settled), ground (arith, settled))
        ]
      ]

  -- Where limits are enforced and `check_limits` accepts an attempt, then after an entry of at most
  -- as many tokens is recorded, neither the daily nor the monthly total is over its limit.
  pub check_limits-record_usage :
      (attempted : ℤ) (now : Instant) (files : UsageFiles) (limits : TokenLimitConfig)
      (e : TokenUsageEntry)
      → read_limits py files ≡ ok limits
      → limits.enforcement_enabled ≡ true
      → check_limits py attempted now files ≡ ok none
      → leb_ℤ e.total_tokens attempted ≡ true
      → (s : TokenUsageSummary) × (summary py now 50 (record_usage e now files) ≡ ok s)
        × (is_over limits.daily_total_tokens s.daily_total ≡ false)
        × (is_over limits.monthly_total_tokens s.monthly_total ≡ false)
  check_limits-record_usage attempted now files limits e reads enforced passed small =
      let (s, made, _, day, month) =
        check_limits_passed attempted now files limits reads enforced passed in
      let (s', made', day', month') = summary-record_usage py now 50 files e s made in
      (
        s',
        made',
        rw day' (
            is_over_smaller limits.daily_total_tokens s.daily_total attempted e.total_tokens small
              day),
        rw month' (
            is_over_smaller limits.monthly_total_tokens s.monthly_total attempted e.total_tokens
              small month),
      )

  -- Limits that are written are read back.
  pub read_limits-write_limits :
      (limits : TokenLimitConfig) (files : UsageFiles)
      → read_limits py (write_limits limits files) ≡ ok limits
  unfolding read_limits write_limits
  read_limits-write_limits limits files = limits_of-to_dict py limits

-- The values of a breakdown, added up.
unfoldable pub sum_counts : List (String × ℤ) → ℤ
sum_counts [] = pos 0
sum_counts ((k, n) ∷ rest) = n +ℤ sum_counts rest

sum_counts-add_total :
    (key : String) (n : ℤ) (counts : List (String × ℤ))
    → sum_counts (add_total key n counts) ≡ sum_counts counts +ℤ n
unfolding sum_counts add_total
sum_counts-add_total key n [] = add_comm_ℤ n (pos 0)
sum_counts-add_total key n ((k, m) ∷ rest) = elim (Bool-cases (k == key)) [
  | inl same ↦ rw same (add_swap_ℤ m n (sum_counts rest))
  | inr other ↦
      rw (other, sum_counts-add_total key n rest) (sym (add_assoc_ℤ m (sum_counts rest) n))
]

sum_counts-tally :
    (key : TokenUsageEntry → String) (es : List TokenUsageEntry) (counts : List (String × ℤ))
    → sum_counts (tally key es counts) ≡ sum_counts counts +ℤ sum_tokens es
unfolding tally sum_tokens
sum_counts-tally key [] counts = sym (add_zero_ℤ (sum_counts counts))
sum_counts-tally key (e ∷ es) counts =
    sum_counts-tally key es _
    ∙ ap (λ t. t +ℤ sum_tokens es) (sum_counts-add_total _ e.total_tokens counts)
    ∙ add_assoc_ℤ (sum_counts counts) e.total_tokens (sum_tokens es)

tally_total :
    (key : TokenUsageEntry → String) (es : List TokenUsageEntry)
    → sum_counts (tally key es []) ≡ sum_tokens es
unfolding sum_counts
tally_total key es = sum_counts-tally key es [] ∙ zero_add_ℤ (sum_tokens es)

summary_entries :
    (py : Builtins) (now : Instant) (recent_limit : ℕ) (files : UsageFiles) (s : TokenUsageSummary)
    → summary py now recent_limit files ≡ ok s
    → (today : List TokenUsageEntry) × (es : List TokenUsageEntry) × (s
        ≡ summary_of recent_limit today es)
unfolding summary
summary_entries py now recent_limit files s h = elim (Result-cases (read_day py now files.days)) [
  | inl (x, failed) ↦ absurd (ground (arith, failed, h))
  | inr (today, day) ↦ elim (Result-cases (read_month py now.month files.days)) [
    | inl (x, failed) ↦ absurd (ground (arith, day, failed, h))
    | inr (es, month) ↦ (today, es, ground (arith, day, month, h))
  ]
]

-- In every summary the breakdowns by provider, by task and by actor add up to the monthly total.
pub sum_counts-summary :
    (py : Builtins) (now : Instant) (recent_limit : ℕ) (files : UsageFiles) (s : TokenUsageSummary)
    → summary py now recent_limit files ≡ ok s
    → (sum_counts s.by_provider ≡ s.monthly_total)
      × (sum_counts s.by_task ≡ s.monthly_total)
      × (sum_counts s.by_actor ≡ s.monthly_total)
sum_counts-summary py now recent_limit files s h =
    let (today, es, same) = summary_entries py now recent_limit files s h in
    (
      rw same (tally_total (λ e. e.provider) es),
      rw same (tally_total (λ e. e.task) es),
      rw same (tally_total (λ e. e.actor) es),
    )
