-- ===== src/Bus/Queue.antt =====
-- `EventBus` of negotium/application/event_bus.py over `asyncio.Queue`. A method that waits for room
-- (`publish`, `retry`) returns `none` where it would be suspended; ids and times are arguments.
use patch_machine.Prelude.{
  ℕ, ◌+◌, String, Bool, true, false, ◌&&◌, Option, none, some, List, [], ◌∷◌, ◌++◌, length, leb,
  ltb, if◌then◌else◌,
}
use patch_machine.Python.{Result, ok, raise, runtime_error}
use patch_machine.Domain.{IssueEvent, DomainEvent}

abbrev pub default_queue_size : ℕ
default_queue_size = 100

abbrev pub max_attempts : ℕ
max_attempts = 3

pub record EventBus : Type 0 where
  pub queue : List DomainEvent
  pub max_size : ℕ

unfoldable pub new_bus : ℕ → EventBus
new_bus max_size = record { queue = []; max_size = max_size }

unfoldable pub size : EventBus → ℕ
size bus = length bus.queue

unfoldable pub capacity : EventBus → ℕ
capacity bus = bus.max_size

-- `Queue.full`: a maximum of 0 means no bound.
unfoldable pub full : EventBus → Bool
full bus = ltb 0 bus.max_size && leb bus.max_size (length bus.queue)

-- The envelope that `DomainEvent(payload=event)` makes, with a fresh trace id.
pub record Stamp : Type 0 where
  pub trace_id : String
  pub enqueued_at : String

abbrev pub envelope : IssueEvent → Stamp → DomainEvent
envelope event stamp = record {
  payload = event;
  trace_id = stamp.trace_id;
  attempt = 1;
  enqueued_at = stamp.enqueued_at;
}

-- `put_nowait`
abbrev pub put : DomainEvent → EventBus → EventBus
put e bus = record bus { queue = bus.queue ++ e ∷ [] }

unfoldable pub publish_nowait : IssueEvent → Stamp → EventBus → Result (DomainEvent × EventBus)
publish_nowait event stamp bus =
    if full bus
    then raise (runtime_error "event bus at capacity")
    else ok (envelope event stamp, put (envelope event stamp) bus)

unfoldable pub publish : IssueEvent → Stamp → EventBus → Option (DomainEvent × EventBus)
publish event stamp bus =
    if full bus then none else some (envelope event stamp, put (envelope event stamp) bus)

abbrev pub next_attempt : DomainEvent → String → DomainEvent
next_attempt e now = record e { attempt = e.attempt + 1; enqueued_at = now }

-- The answer is whether the event was enqueued again.
unfoldable pub retry : DomainEvent → String → EventBus → Option (Bool × EventBus)
retry e now bus =
    if leb max_attempts e.attempt
    then some (false, bus)
    else if full bus
    then none
    else some (true, put (next_attempt e now) bus)

-- `Queue.get`: `none` where the consumer waits.
unfoldable pub take_next : EventBus → Option (DomainEvent × EventBus)
take_next bus = elim bus.queue [ [] ↦ none | e ∷ rest ↦ some (e, record bus { queue = rest }) ]
