-- ===== src/Audit/Recent.antt =====
-- What `list_recent` of negotium/archive/audit_log.py returns.
use patch_machine.Prelude.{
  drop, reversed, length-reversed, ℕ, zero, suc, ◌-◌, ◌≤◌, String, ◌≡◌, refl, sym, ap, ◌∙◌, false,
  List, [], ◌∷◌, ◌++◌, map, map-append, append-nil, append_assoc, length, length-append, length-map,
  take, if◌then◌else◌, arith, ◌==◌, leb, eq_iff, Bool-cases, inl, inr,
}
use patch_machine.Prelude.Int.{pos}
use patch_machine.Python.{
  Line, Fields, Builtins, get, str_or-empty, str_or-str, iter_jsonl_records,
  iter_jsonl_records-append, is_blank,
}
use patch_machine.Audit.Log.{
  AuditRecord, audit_of, audit_to_dict, record_audit, last_of, list_recent,
}

module _ {ℓ} {A : Type ℓ} where
  pub reversed-append : (xs ys : List A) → reversed (xs ++ ys) ≡ reversed ys ++ reversed xs
  unfolding reversed
  reversed-append [] ys = sym (append-nil (reversed ys))
  reversed-append (x ∷ xs) ys =
      rw (reversed-append xs ys) (append_assoc (reversed ys) (reversed xs) (x ∷ []))

  take-append_short : (n : ℕ) (xs ys : List A) → n ≤ length xs → take n (xs ++ ys) ≡ take n xs
  take-append_short zero xs ys h = refl
  take-append_short (suc n) [] ys h = absurd (omega arith)
  take-append_short (suc n) (x ∷ xs) ys h = ap (◌∷◌ x) (take-append_short n xs ys (omega arith))

  take_all : (n : ℕ) (xs : List A) → length xs ≤ n → take n xs ≡ xs
  take_all zero [] h = refl
  take_all zero (x ∷ xs) h = absurd (omega arith)
  take_all (suc n) [] h = refl
  take_all (suc n) (x ∷ xs) h = ap (◌∷◌ x) (take_all n xs (omega arith))

  drop_zero : (xs : List A) → drop 0 xs ≡ xs
  unfolding drop
  drop_zero [] = refl
  drop_zero (x ∷ xs) = refl

  -- The newest entries, newest first.
  reversed-drop : (n : ℕ) (xs : List A) → reversed (drop (length xs - n) xs) ≡ take n (reversed xs)
  unfolding reversed drop
  reversed-drop n [] = sym (take_all n [] (omega arith))
  reversed-drop n (x ∷ xs) = elim (Bool-cases (leb n (length xs))) [
    | inl short ↦
        let more : suc (length xs) - n ≡ suc (length xs - n) = ground (arith, short) in
        rw more (
          reversed-drop n xs
          ∙ sym (
              take-append_short n (reversed xs) (x ∷ [])
                (ground (arith, short, length-reversed xs))))
    | inr long ↦
        let none_left : suc (length xs) - n ≡ 0 = ground (arith, long) in
        rw none_left (
          sym (
            take_all n (reversed xs ++ x ∷ [])
              (ground (arith, long, length-append (reversed xs) (x ∷ []), length-reversed xs))))
  ]

module _ {ℓ κ} {A : Type ℓ} {B : Type κ} where
  map-drop : (n : ℕ) (xs : List A) (f : A → B) → map f (drop n xs) ≡ drop n (map f xs)
  unfolding drop
  map-drop n [] f = refl
  map-drop zero (x ∷ xs) f = refl
  map-drop (suc n) (x ∷ xs) f = map-drop n xs f

given_text : (s d : String) → is_blank s ≡ false → (if s == "" then d else s) ≡ s
given_text s d h = elim (Bool-cases (s == "")) [
  | inl empty ↦
      let same : s ≡ "" = (eq_iff s "").0 empty in
      let full : is_blank "" ≡ false = rw same at h in absurd (ground (arith, full))
  | inr full ↦ rw full refl
]

module _ (py : Builtins) where
  -- The whole log as dicts, newest first.
  abbrev pub newest_first : List Line → List Fields
  newest_first log = reversed (map audit_to_dict (map (audit_of py) (iter_jsonl_records log)))

  audit_of-to_dict :
      (r : AuditRecord) → is_blank r.actor ≡ false → audit_of py (audit_to_dict r) ≡ r
  unfolding audit_of audit_to_dict get
  audit_of-to_dict r h = simp (str_or-empty, str_or-str, given_text r.actor "anonymous" h)

  -- A limit of at least 1 gives the newest entries.
  list_recent_newest :
      (n : ℕ) (log : List Line) → list_recent py (pos (suc n)) log ≡ take (suc n) (newest_first log)
  unfolding list_recent last_of
  list_recent_newest n log =
      let records = map (audit_of py) (iter_jsonl_records log) in
      rw (map-drop (length records - suc n) records audit_to_dict) (
        rw (← length-map records audit_to_dict) (reversed-drop (suc n) (map audit_to_dict records)))

  -- What was recorded comes first among the newest entries, before the entries that were the newest;
  -- its actor is not blank, as `create` makes it.
  pub list_recent-record_audit :
      (n : ℕ) (r : AuditRecord) (log : List Line)
      → is_blank r.actor ≡ false
      → list_recent py (pos (suc n)) (record_audit r log)
        ≡ audit_to_dict r ∷ take n (newest_first log)
  unfolding record_audit
  list_recent-record_audit n r log h =
      list_recent_newest n (record_audit r log)
      ∙ rw
          (
            iter_jsonl_records-append log (audit_to_dict r),
            map-append,
            audit_of-to_dict r h,
            map-append,
            reversed-append,
          )
          (unfold reversed in refl)
