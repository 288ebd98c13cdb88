-- ===== src/Bus/System.antt =====
-- The event bus between its adapters and its one consumer, task by task: `publish_nowait` from the
-- GitHub and Discord adapters, and `Orchestrator.run_forever`, which `main.py` starts once. A step
-- runs until the next suspension: while `handle` waits, adapters may publish.
use patch_machine.Prelude.{ℕ, String, ◌≡◌, Bool, false, Option, none, some}
use patch_machine.Python.{Result, ok, raise}
use patch_machine.Domain.{IssueEvent, DomainEvent}
use patch_machine.Bus.Queue.{
  EventBus, Stamp, new_bus, publish_nowait, take_next, retry, full, put, next_attempt,
}

pub data Consumer : Type 0 where
  -- suspended in `queue.get()`
  waiting : Consumer
  -- suspended in `handle`
  handling : DomainEvent → Consumer
  -- suspended in the `queue.put(...)` of `retry`
  retrying : DomainEvent → Consumer

pub record System : Type 0 where
  pub bus : EventBus
  pub consumer : Consumer

unfoldable pub start : ℕ → System
unfolding new_bus
start max_size = record { bus = new_bus max_size; consumer = waiting }

-- What the consumer does next, after `retry` was called on the envelope.
abbrev pub after_failure : DomainEvent → String → EventBus → Option (Bool × EventBus) → System
after_failure e now bus none = record { bus = bus; consumer = retrying (next_attempt e now) }
after_failure e now bus (some (again, bus')) = record { bus = bus'; consumer = waiting }

abbrev pub after_publish : System → Result (DomainEvent × EventBus) → System
after_publish s (raise e) = s
after_publish s (ok (e, bus)) = record s { bus = bus }

pub data Step (s : System) : System → Type 0 where
  -- An adapter publishes; a full bus raises `QueueFullError` and stays as it is.
  arrive :
      (event : IssueEvent) (stamp : Stamp)
      → Step s (after_publish s (publish_nowait event stamp s.bus))
  take :
      (e : DomainEvent) (bus : EventBus)
      → s.consumer ≡ waiting
      → take_next s.bus ≡ some (e, bus)
      → Step s (record { bus = bus; consumer = handling e })
  succeed : (e : DomainEvent) → s.consumer ≡ handling e → Step s (record s { consumer = waiting })
  fail :
      (e : DomainEvent) (now : String)
      → s.consumer ≡ handling e
      → Step s (after_failure e now s.bus (retry e now s.bus))
  -- The suspended `put` goes on when there is room.
  resume :
      (e : DomainEvent)
      → s.consumer ≡ retrying e
      → full s.bus ≡ false
      → Step s (record { bus = put e s.bus; consumer = waiting })

pub data Reach (s : System) : System → Type 0 where
  here : Reach s s
  next : {t u : System} → Reach s t → Step t u → Reach s u
