-- ===== src/TokenUsage/Totals.antt =====
-- What a recorded entry changes in the summaries.
use patch_machine.Prelude.{
  ℕ, String, ◌≡◌, refl, sym, ap, ◌∙◌, true, List, [], ◌∷◌, ◌++◌, ◌==◌, arith, eq_refl, Bool-cases,
  inl, inr,
}
use patch_machine.Prelude.Int.{
  pos, ◌+ℤ◌, add_assoc_ℤ, add_comm_ℤ, zero_add_ℤ, add_zero_ℤ, add_swap_ℤ,
}
use patch_machine.Python.{
  Line, blank, broken, json, null, bool, int, float, str, arr, obj, Builtins, ok, Result-cases,
}
use patch_machine.TokenUsage.Records.{
  TokenUsageEntry, TokenUsageSummary, entry_to_dict, entry_of, entry_of-to_dict,
}
use patch_machine.TokenUsage.Store.{
  Instant, DayFile, UsageFiles, is_day, append_line, sum_tokens, read_jsonl, read_day, read_month,
  summary, summary_of, record_usage,
}

sum_tokens-append :
    (xs ys : List TokenUsageEntry) → sum_tokens (xs ++ ys) ≡ sum_tokens xs +ℤ sum_tokens ys
unfolding sum_tokens
sum_tokens-append [] ys = sym (zero_add_ℤ (sum_tokens ys))
sum_tokens-append (x ∷ xs) ys =
    ap (λ t. x.total_tokens +ℤ t) (sum_tokens-append xs ys)
    ∙ sym (add_assoc_ℤ x.total_tokens (sum_tokens xs) (sum_tokens ys))

sum_tokens_inserted :
    (xs ys : List TokenUsageEntry) (e : TokenUsageEntry)
    → sum_tokens ((xs ++ e ∷ []) ++ ys) ≡ sum_tokens (xs ++ ys) +ℤ e.total_tokens
sum_tokens_inserted xs ys e =
    let one : sum_tokens (e ∷ []) ≡ e.total_tokens =
      unfold sum_tokens in add_zero_ℤ e.total_tokens in
    sum_tokens-append (xs ++ e ∷ []) ys
    ∙ ap (λ t. t +ℤ sum_tokens ys)
        (sum_tokens-append xs (e ∷ []) ∙ ap (λ t. sum_tokens xs +ℤ t) one)
    ∙ add_swap_ℤ (sum_tokens xs) e.total_tokens (sum_tokens ys)
    ∙ ap (λ t. t +ℤ e.total_tokens) (sym (sum_tokens-append xs ys))

sum_tokens_behind :
    (xs ys ys' : List TokenUsageEntry) (e : TokenUsageEntry)
    → sum_tokens ys' ≡ sum_tokens ys +ℤ e.total_tokens
    → sum_tokens (xs ++ ys') ≡ sum_tokens (xs ++ ys) +ℤ e.total_tokens
sum_tokens_behind xs ys ys' e raised =
    sum_tokens-append xs ys'
    ∙ ap (λ t. sum_tokens xs +ℤ t) raised
    ∙ sym (add_assoc_ℤ (sum_tokens xs) (sum_tokens ys) e.total_tokens)
    ∙ ap (λ t. t +ℤ e.total_tokens) (sym (sum_tokens-append xs ys))

module _ (py : Builtins) where
  read_jsonl-append :
      (ls : List Line) (es : List TokenUsageEntry) (e : TokenUsageEntry)
      → read_jsonl py ls ≡ ok es
      → read_jsonl py (ls ++ json (obj (entry_to_dict e)) ∷ []) ≡ ok (es ++ e ∷ [])
  unfolding read_jsonl
  read_jsonl-append [] es e h = ground (arith, h, entry_of-to_dict py e)
  read_jsonl-append (blank ∷ ls) es e h = read_jsonl-append ls es e h
  read_jsonl-append (broken ∷ ls) es e h = read_jsonl-append ls es e h
  read_jsonl-append (json null ∷ ls) es e h = read_jsonl-append ls es e h
  read_jsonl-append (json (bool b) ∷ ls) es e h = read_jsonl-append ls es e h
  read_jsonl-append (json (int i) ∷ ls) es e h = read_jsonl-append ls es e h
  read_jsonl-append (json (float s) ∷ ls) es e h = read_jsonl-append ls es e h
  read_jsonl-append (json (str s) ∷ ls) es e h = read_jsonl-append ls es e h
  read_jsonl-append (json (arr vs) ∷ ls) es e h = read_jsonl-append ls es e h
  read_jsonl-append (json (obj d) ∷ ls) es e h = elim (Result-cases (entry_of py d)) [
    | inl (x, failed) ↦ absurd (ground (arith, failed, h))
    | inr (first, made) ↦ elim (Result-cases (read_jsonl py ls)) [
      | inl (x, failed) ↦ absurd (ground (arith, made, failed, h))
      | inr (rest, found) ↦
          let all : es ≡ first ∷ rest = ground (arith, made, found, h) in
          ground (arith, made, all, read_jsonl-append ls rest e found)
    ]
  ]

  read_day-append_line :
      (now : Instant) (files : List DayFile) (es : List TokenUsageEntry) (e : TokenUsageEntry)
      → read_day py now files ≡ ok es
      → read_day py now (append_line now (json (obj (entry_to_dict e))) files) ≡ ok (es ++ e ∷ [])
  unfolding read_day append_line
  read_day-append_line now [] es e h = ground (
    arith,
    h,
    eq_refl now.month,
    eq_refl now.day,
    read_jsonl-append [] [] e (unfold read_jsonl in refl),
  )
  read_day-append_line now (f ∷ fs) es e h = elim (Bool-cases (is_day now f)) [
    | inl same ↦ ground (arith, same, read_jsonl-append f.lines es e, h)
    | inr other ↦ ground (arith, other, h, read_day-append_line now fs es e)
  ]

  -- The month of the files, with the total that the new entry adds.
  abbrev Raised : Instant → List DayFile → List TokenUsageEntry → TokenUsageEntry → Type 0
  Raised now files es e =
      (es' : List TokenUsageEntry) × (read_month py now.month
          (append_line now (json (obj (entry_to_dict e))) files)
        ≡ ok es')
      × (sum_tokens es' ≡ sum_tokens es +ℤ e.total_tokens)

  read_month_split :
      (month : String) (f : DayFile) (fs : List DayFile) (es : List TokenUsageEntry)
      → (f.month == month) ≡ true
      → read_month py month (f ∷ fs) ≡ ok es
      → (es₁ : List TokenUsageEntry) × (more : List TokenUsageEntry) × (read_jsonl py f.lines
          ≡ ok es₁)
        × (read_month py month fs ≡ ok more)
        × (es ≡ es₁ ++ more)
  unfolding read_month
  read_month_split month f fs es same h = elim (Result-cases (read_jsonl py f.lines)) [
    | inl (x, failed) ↦ absurd (ground (arith, same, failed, h))
    | inr (es₁, found) ↦ elim (Result-cases (read_month py month fs)) [
      | inl (x, failed) ↦ absurd (ground (arith, same, found, failed, h))
      | inr (more, rest) ↦ (es₁, more, found, rest, ground (arith, same, found, rest, h))
    ]
  ]

  read_month-append_line :
      (now : Instant) (files : List DayFile) (es : List TokenUsageEntry) (e : TokenUsageEntry)
      → read_month py now.month files ≡ ok es
      → Raised now files es e
  unfolding read_month append_line sum_tokens
  read_month-append_line now [] es e h =
      let none_yet : es ≡ [] = ground (arith, h) in
      let alone : read_jsonl py (json (obj (entry_to_dict e)) ∷ []) ≡ ok (e ∷ []) =
        read_jsonl-append [] [] e (unfold read_jsonl in refl) in
      (
        e ∷ [],
        ground (arith, eq_refl now.month, alone),
        rw none_yet (add_comm_ℤ e.total_tokens (pos 0)),
      )
  read_month-append_line now (f ∷ fs) es e h = elim (Bool-cases (f.month == now.month)) [
    | inr other ↦
        let (es', reads, raised) = read_month-append_line now fs es e (ground (arith, other, h)) in
        (es', ground (arith, other, reads), raised)
    | inl same ↦
        let (es₁, more, found, rest, all) = read_month_split now.month f fs es same h in
        elim (Bool-cases (f.day == now.day)) [
          | inl today ↦ (
            (es₁ ++ e ∷ []) ++ more,
            ground (arith, same, today, read_jsonl-append f.lines es₁ e found, rest),
            rw all (sum_tokens_inserted es₁ more e),
          )
          | inr before ↦
              let (more', reads, raised) = read_month-append_line now fs more e rest in
              (
                es₁ ++ more',
                ground (arith, same, before, found, reads),
                rw all (sum_tokens_behind es₁ more more' e raised),
              )
        ]
  ]

  -- After an entry is recorded, the daily and the monthly total are larger by its tokens, and every
  -- summary that could be made still can.
  pub summary-record_usage :
      (now : Instant) (recent_limit : ℕ) (files : UsageFiles) (e : TokenUsageEntry)
      (s : TokenUsageSummary)
      → summary py now recent_limit files ≡ ok s
      → (s' : TokenUsageSummary) × (summary py now recent_limit (record_usage e now files) ≡ ok s')
        × (s'.daily_total ≡ s.daily_total +ℤ e.total_tokens)
        × (s'.monthly_total ≡ s.monthly_total +ℤ e.total_tokens)
  unfolding summary record_usage
  summary-record_usage now recent_limit files e s h =
      elim (Result-cases (read_day py now files.days)) [
        | inl (x, failed) ↦ absurd (ground (arith, failed, h))
        | inr (today, day) ↦ elim (Result-cases (read_month py now.month files.days)) [
          | inl (x, failed) ↦ absurd (ground (arith, day, failed, h))
          | inr (es, month) ↦
              let (es', month', raised) = read_month-append_line now files.days es e month in
              let day' = read_day-append_line now files.days today e day in
              let one : sum_tokens (e ∷ []) ≡ e.total_tokens =
                unfold sum_tokens in add_zero_ℤ e.total_tokens in
              let longer : sum_tokens (today ++ e ∷ []) ≡ sum_tokens today +ℤ e.total_tokens =
                sum_tokens-append today (e ∷ []) ∙ ap (λ t. sum_tokens today +ℤ t) one in
              let same : s ≡ summary_of recent_limit today es = ground (arith, day, month, h) in
              (
                summary_of recent_limit (today ++ e ∷ []) es',
                ground (arith, day', month'),
                rw same longer,
                rw same raised,
              )
        ]
      ]
