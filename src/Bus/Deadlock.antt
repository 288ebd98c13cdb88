-- ===== src/Bus/Deadlock.antt =====
-- The bus never holds more than its maximum, and the consumer can be suspended for good.
use patch_machine.Prelude.{
  ℕ, zero, suc, ◌+◌, ◌≤◌, ◌<◌, String, ◌≡◌, refl, true, none, [], ◌∷◌, length, length-append, ap,
  ◌∙◌, sym, arith,
}
use patch_machine.Domain.{IssueEvent, DomainEvent}
use patch_machine.Bus.Queue.{
  EventBus, Stamp, new_bus, publish_nowait, take_next, retry, full, put, next_attempt, envelope,
}
use patch_machine.Bus.System.{
  System, start, after_failure, Step, Reach, handling, retrying, arrive, take, succeed, fail,
  resume, here, next,
}
use mathlib.Core.Path.{subst}

-- The maximum never changes and, if there is one, bounds the queue.
pub record IsBounded (max_size : ℕ) (s : System) : Type 0 where
  pub same_max : s.bus.max_size ≡ max_size
  pub bounded : 0 < max_size → length s.bus.queue ≤ max_size

Step-IsBounded :
    {max_size : ℕ} {s t : System} → Step s t → IsBounded max_size s → IsBounded max_size t
unfolding publish_nowait take_next retry full
Step-IsBounded {max_size} {s} (arrive event stamp) h =
    ground (arith, length-append s.bus.queue (envelope event stamp ∷ []))
Step-IsBounded {max_size} {s} (take e bus w t) h = ground arith
Step-IsBounded (succeed e w) h = record { same_max = h.same_max; bounded = h.bounded }
Step-IsBounded {max_size} {s} (fail e now w) h =
    ground (arith, length-append s.bus.queue (next_attempt e now ∷ []))
Step-IsBounded {max_size} {s} (resume e w room) h =
    ground (arith, length-append s.bus.queue (e ∷ []))

-- In every reachable state the queue holds at most `max_size` envelopes, if `max_size` is not 0.
pub Reach-IsBounded : (max_size : ℕ) (s : System) → Reach (start max_size) s → IsBounded max_size s
Reach-IsBounded max_size s here =
    unfold start new_bus in record { same_max = refl; bounded = λ h. omega arith }
Reach-IsBounded max_size s (next r st) = Step-IsBounded st (Reach-IsBounded max_size _ r)

-- The consumer waits for room in a full queue that nobody else empties.
abbrev pub IsStuck : System → Type 0
IsStuck s = ((e : DomainEvent) × (s.consumer ≡ retrying e)) × (full s.bus ≡ true)

Step-stuck : {s t : System} → Step s t → IsStuck s → t ≡ s
unfolding publish_nowait
Step-stuck {s} (arrive event stamp) ((e, w), f) = ground (arith, w, f)
Step-stuck {s} (take e bus w t) ((e', w'), f) = absurd (ground (arith, w, w'))
Step-stuck {s} (succeed e w) ((e', w'), f) = absurd (ground (arith, w, w'))
Step-stuck {s} (fail e now w) ((e', w'), f) = absurd (ground (arith, w, w'))
Step-stuck {s} (resume e w room) ((e', w'), f) = absurd (ground (arith, f, room))

-- Once the consumer waits for room in a full queue, no step of any task changes anything again.
pub Reach-stuck : (s t : System) → IsStuck s → Reach s t → t ≡ s
Reach-stuck s t h here = refl
Reach-stuck s t h (next {t = u} r st) =
    let same = Reach-stuck s u h r in
    Step-stuck st (subst (λ (x : System). IsStuck x) (sym same) h) ∙ same

full_of_length :
    (bus : EventBus) (n : ℕ) → bus.max_size ≡ suc n → length bus.queue ≡ suc n → full bus ≡ true
unfolding full
full_of_length bus n m l = ground (arith, m, l)

module _ (event : IssueEvent) (stamp : Stamp) (now : String) where
  -- The state after an event has been accepted.
  abbrev accepted : System → System
  accepted s = record s { bus = put (envelope event stamp) s.bus }

  arrive-accepted : (s : System) → length s.bus.queue < s.bus.max_size → Step s (accepted s)
  unfolding publish_nowait full
  arrive-accepted s room = subst (Step s) (ground (arith, room)) (arrive event stamp)

  -- While `handle` is suspended, adapters can fill the queue.
  fill :
      (k : ℕ) (s₀ s : System)
      → Reach s₀ s
      → length s.bus.queue + k ≤ s.bus.max_size
      → (t : System) × Reach s₀ t
        × (t.consumer ≡ s.consumer)
        × (t.bus.max_size ≡ s.bus.max_size)
        × (length t.bus.queue ≡ length s.bus.queue + k)
  fill zero s₀ s r room = (s, r, refl, refl, omega arith)
  fill (suc k) s₀ s r room =
      let longer = length-append s.bus.queue (envelope event stamp ∷ []) in
      let (t, r', c, m, l) =
        fill k s₀ (accepted s) (next r (arrive-accepted s (omega arith))) (omega (arith, longer)) in
      (t, r', c, m, omega (arith, longer, l))

  first : (n : ℕ) → System
  first n = record { bus = new_bus (suc n); consumer = handling (envelope event stamp) }

  first_reached : (n : ℕ) → Reach (start (suc n)) (first n)
  unfolding first start new_bus take_next
  first_reached n =
      next (next here (arrive-accepted (start (suc n)) (omega arith)))
        (take (envelope event stamp) (new_bus (suc n)) refl refl)

  first_retry : (bus : EventBus) → full bus ≡ true → retry (envelope event stamp) now bus ≡ none
  unfolding retry
  first_retry bus h = rw h

  -- Whatever the size of the queue, the bus can deadlock: a handler fails while the adapters have
  -- filled the queue, its one consumer waits in `retry` for room that only it could make, and from
  -- then on no step of any task changes anything.
  pub deadlock_reachable :
      (n : ℕ)
      → (s : System) × Reach (start (suc n)) s × IsStuck s × ((t : System) → Reach s t → t ≡ s)
  unfolding first new_bus
  deadlock_reachable n =
      let (t, r, c, m, l) =
        fill (suc n) (start (suc n)) (first n) (first_reached n) (omega arith) in
      let e = next_attempt (envelope event stamp) now in
      let filled : full t.bus ≡ true = full_of_length t.bus n m (omega (arith, l)) in
      let s : System = record { bus = t.bus; consumer = retrying e } in
      (
        s,
        subst (Reach (start (suc n)))
            (ap (after_failure (envelope event stamp) now t.bus) (first_retry t.bus filled))
            (next r (fail (envelope event stamp) now c)),
        ((e, refl), filled),
        λ u. Reach-stuck s u ((e, refl), filled),
      )
