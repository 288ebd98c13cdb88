-- ===== src/Bus/Delivery.antt =====
-- How often an event is delivered.
use patch_machine.Prelude.{
  ℕ, zero, suc, ◌+◌, ◌-◌, ◌≤◌, ◌<◌, String, ◌≡◌, refl, Bool, some, List, [], ◌∷◌, ◌++◌, leb, ◌==◌,
  if◌then◌else◌, arith, length, length-append, Bool-cases, inl, inr,
}
use patch_machine.Domain.{DomainEvent}
use patch_machine.Bus.Queue.{EventBus, full, max_attempts, next_attempt}
use patch_machine.Bus.Consumer.{process, run_forever}

-- The deliveries that the retry limit leaves to an envelope.
abbrev left : DomainEvent → ℕ
left e = 4 - e.attempt

unfoldable pub deliveries_left : List DomainEvent → ℕ
deliveries_left [] = 0
deliveries_left (e ∷ es) = left e + deliveries_left es

deliveries_left-append :
    (xs : List DomainEvent) (e : DomainEvent)
    → deliveries_left (xs ++ e ∷ []) ≡ deliveries_left xs + left e
unfolding deliveries_left
deliveries_left-append [] e = omega arith
deliveries_left-append (x ∷ xs) e = omega (arith, deliveries_left-append xs e)

abbrev pub AllWithin : List DomainEvent → Type 0
AllWithin [] = Unit
AllWithin (e ∷ es) = (e.attempt ≤ max_attempts) × AllWithin es

AllWithin-append :
    (xs : List DomainEvent) (e : DomainEvent)
    → AllWithin xs
    → e.attempt ≤ max_attempts
    → AllWithin (xs ++ e ∷ [])
AllWithin-append [] e h k = (k, tt)
AllWithin-append (x ∷ xs) e h k = (h.0, AllWithin-append xs e h.1 k)

-- Envelopes within the limit, in a queue that has room for what is taken.
pub record InLimits (bus : EventBus) : Type 0 where
  pub attempts : AllWithin bus.queue
  pub room : length bus.queue ≤ bus.max_size
  pub bounded : 0 < bus.max_size

-- The envelopes with a trace id, and the deliveries that are left to them.
abbrev hit : String → DomainEvent → ℕ
hit t e = if e.trace_id == t then 1 else 0

unfoldable pub count_trace : String → List DomainEvent → ℕ
count_trace t [] = 0
count_trace t (e ∷ es) = hit t e + count_trace t es

unfoldable pub allowance : String → List DomainEvent → ℕ
allowance t [] = 0
allowance t (e ∷ es) = (if e.trace_id == t then left e else 0) + allowance t es

count_trace-append :
    (t : String) (xs : List DomainEvent) (e : DomainEvent)
    → count_trace t (xs ++ e ∷ []) ≡ count_trace t xs + hit t e
unfolding count_trace
count_trace-append t [] e = omega arith
count_trace-append t (x ∷ xs) e = omega (arith, count_trace-append t xs e)

allowance-append :
    (t : String) (xs : List DomainEvent) (e : DomainEvent)
    → allowance t (xs ++ e ∷ []) ≡ allowance t xs + (if e.trace_id == t then left e else 0)
unfolding allowance
allowance-append t [] e = omega arith
allowance-append t (x ∷ xs) e = omega (arith, allowance-append t xs e)

module _ (fails : DomainEvent → Bool) (now : String) where
  abbrev Round : DomainEvent → List DomainEvent → ℕ → EventBus → Type 0
  Round e rest max_size bus' =
      (process fails e now (record { queue = rest; max_size = max_size }) ≡ some bus')
      × InLimits bus'
      × (deliveries_left bus'.queue < deliveries_left (e ∷ rest))
      × ((t : String)
          → (count_trace t (e ∷ rest) ≤ hit t e + count_trace t bus'.queue)
            × (hit t e + allowance t bus'.queue ≤ allowance t (e ∷ rest)))

  -- One round never waits, uses up a delivery, and loses no event.
  process-progress :
      (e : DomainEvent) (rest : List DomainEvent) (max_size : ℕ)
      → InLimits (record { queue = e ∷ rest; max_size = max_size })
      → (bus' : EventBus) × Round e rest max_size bus'
  unfolding process full deliveries_left count_trace allowance
  process-progress e rest max_size h = elim (Bool-cases (fails e)) [
    | inr works ↦ (
      record { queue = rest; max_size = max_size },
      (
        ground (arith, works),
        record { attempts = h.attempts.1; room = omega arith; bounded = h.bounded },
        ground arith,
        λ t. (ground arith, ground arith),
      ),
    )
    | inl failed ↦ elim (Bool-cases (leb max_attempts e.attempt)) [
      | inl last ↦ (
        record { queue = rest; max_size = max_size },
        (
          ground (arith, failed, last),
          record { attempts = h.attempts.1; room = omega arith; bounded = h.bounded },
          ground arith,
          λ t. (ground arith, ground arith),
        ),
      )
      | inr more ↦
          let again = next_attempt e now in
          (
            record { queue = rest ++ again ∷ []; max_size = max_size },
            (
              ground (arith, failed, more),
              record {
                attempts = AllWithin-append rest again h.attempts.1 (ground (arith, more));
                room = omega (arith, length-append rest (again ∷ []));
                bounded = h.bounded;
              },
              ground (arith, more, deliveries_left-append rest again),
              λ t. (
                ground (arith, more, count_trace-append t rest again),
                ground (arith, more, allowance-append t rest again),
              ),
            ),
          )
    ]
  ]

  abbrev Delivered : ℕ → EventBus → List DomainEvent → Type 0
  Delivered fuel bus log =
      (run_forever fails fuel now bus ≡ some log)
      × ((t : String)
          → (count_trace t bus.queue ≤ count_trace t log)
            × (count_trace t log ≤ allowance t bus.queue))

  run_forever-step :
      (e : DomainEvent) (rest : List DomainEvent) (max_size : ℕ) (bus' : EventBus) (fuel : ℕ)
      (log : List DomainEvent)
      → process fails e now (record { queue = rest; max_size = max_size }) ≡ some bus'
      → run_forever fails fuel now bus' ≡ some log
      → run_forever fails (suc fuel) now (record { queue = e ∷ rest; max_size = max_size })
        ≡ some (e ∷ log)
  unfolding run_forever
  run_forever-step e rest max_size bus' fuel log done runs = ground (arith, done, runs)

  deliver :
      (fuel : ℕ) (queue : List DomainEvent) (max_size : ℕ)
      → InLimits (record { queue = queue; max_size = max_size })
      → deliveries_left queue < fuel
      → (log : List DomainEvent) × Delivered fuel
          (record { queue = queue; max_size = max_size })
          log
  unfolding run_forever deliveries_left count_trace allowance
  deliver zero queue max_size h enough = absurd (omega arith)
  deliver (suc fuel) [] max_size h enough = ([], (refl, λ t. (omega arith, omega arith)))
  deliver (suc fuel) (e ∷ rest) max_size h enough =
      let (bus', (done, limits, less, counts)) = process-progress e rest max_size h in
      let (log, (runs, told)) = deliver fuel bus'.queue bus'.max_size limits (omega arith) in
      (
        e ∷ log,
        (
          run_forever-step e rest max_size bus' fuel log done runs,
          λ t. (omega (arith, counts t, told t), omega (arith, counts t, told t)),
        ),
      )

  -- With enough fuel the loop empties the queue: it is never suspended in `retry`, every envelope is
  -- handled at least once, and a trace no more often than its attempts leave.
  pub run_forever-deliveries :
      (fuel : ℕ) (bus : EventBus)
      → InLimits bus
      → deliveries_left bus.queue < fuel
      → (log : List DomainEvent) × (run_forever fails fuel now bus ≡ some log)
        × ((t : String)
            → (count_trace t bus.queue ≤ count_trace t log)
              × (count_trace t log ≤ allowance t bus.queue))
  unfolding run_forever
  run_forever-deliveries fuel bus h enough =
      let (log, (runs, told)) = deliver fuel bus.queue bus.max_size h enough in (log, runs, told)
