-- ===== src/Bus/Consumer.antt =====
-- `Orchestrator.run_forever` while nothing else is published: each event is handled, and enqueued
-- again if its handler raised. The loop runs on fuel, until the queue is empty.
use patch_machine.Prelude.{
  ℕ, zero, suc, String, Bool, Option, none, some, List, [], ◌∷◌, if◌then◌else◌,
}
use patch_machine.Domain.{DomainEvent}
use patch_machine.Bus.Queue.{EventBus, take_next, retry}

-- `handle` raises on this envelope: the collaborators of the orchestrator decide.
module _ (fails : DomainEvent → Bool) where
  abbrev after_retry : EventBus → Option (Bool × EventBus) → Option EventBus
  after_retry bus none = none
  after_retry bus (some (again, bus')) = some bus'

  -- `try: await self.handle(...)  except Exception: await bus.retry(envelope)`
  unfoldable pub process : DomainEvent → String → EventBus → Option EventBus
  unfolding retry
  process e now bus = if fails e then after_retry bus (retry e now bus) else some bus

  -- The envelopes that were handled, in order. `none` means that the fuel ran out, or that the
  -- consumer is suspended in `retry`.
  unfoldable pub run_forever : ℕ → String → EventBus → Option (List DomainEvent)
  unfolding take_next
  run_forever zero now bus = none
  run_forever (suc fuel) now bus = elim (take_next bus) [
    | none ↦ some []
    | some (e, rest) ↦ elim (process e now rest) [
      | none ↦ none
      | some bus' ↦ elim (run_forever fuel now bus') [ none ↦ none | some log ↦ some (e ∷ log) ]
    ]
  ]
