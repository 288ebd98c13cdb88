-- ===== src/Bus/Tests.antt =====
-- Tests of negotium/application/event_bus.py with a handler that fails for one trace, and the
-- theorems at them.
use patch_machine.Prelude.{◌≤◌, String, Bool, ◌≡◌, refl, some, List, [], ◌∷◌, ◌==◌, arith}
use patch_machine.Python.{raise, runtime_error}
use patch_machine.Domain.{IssueEvent, DomainEvent, github}
use patch_machine.Bus.Queue.{
  EventBus, Stamp, envelope, publish_nowait, take_next, retry, full, next_attempt,
}
use patch_machine.Bus.Consumer.{process, run_forever}
use patch_machine.Bus.Delivery.{
  InLimits, deliveries_left, count_trace, allowance, run_forever-deliveries,
}
use patch_machine.Bus.System.{System, start, Reach, here, next, arrive, after_publish}
use patch_machine.Bus.Deadlock.{IsBounded, IsStuck, Reach-IsBounded, deadlock_reachable}

abbrev issue : IssueEvent
issue = record {
  event_id = "e1";
  source = github;
  external_id = "7";
  repo = record { owner = "acme"; name = "app"; default_branch = "main" };
  title = "bug";
  body = "";
  author = "kim";
  labels = [];
  created_at = "";
  metadata = [];
}

abbrev stamp : Stamp
stamp = record { trace_id = "t1"; enqueued_at = "09:00" }

abbrev other : Stamp
other = record { trace_id = "t2"; enqueued_at = "09:01" }

abbrev two_events : EventBus
two_events = record { queue = envelope issue stamp ∷ envelope issue other ∷ []; max_size = 2 }

abbrev fails : DomainEvent → Bool
fails e = e.trace_id == "t1"

full_bus : publish_nowait issue stamp two_events ≡ raise (runtime_error "event bus at capacity")
unfolding publish_nowait full
full_bus = refl

-- The failing event is handled three times, the other one once.
tries :
    run_forever fails 7 "09:02" two_events
    ≡ some (
        envelope issue stamp
        ∷ envelope issue other
        ∷ next_attempt (envelope issue stamp) "09:02"
        ∷ next_attempt (next_attempt (envelope issue stamp) "09:02") "09:02"
        ∷ [])
unfolding run_forever process retry full take_next
tries = refl

two_events-InLimits : InLimits two_events
two_events-InLimits = record {
  attempts = (omega arith, (omega arith, tt));
  room = omega arith;
  bounded = omega arith;
}

run_forever-deliveries_example :
    (log : List DomainEvent) × (run_forever fails 7 "09:02" two_events ≡ some log)
    × ((t : String)
        → (count_trace t two_events.queue ≤ count_trace t log)
          × (count_trace t log ≤ allowance t two_events.queue))
unfolding deliveries_left
run_forever-deliveries_example =
    run_forever-deliveries fails "09:02" 7 two_events two_events-InLimits (omega arith)

abbrev one_event : System
one_event = after_publish (start 1) (publish_nowait issue stamp (start 1).bus)

one_event_reached : Reach (start 1) one_event
one_event_reached = next here (arrive issue stamp)

Reach-IsBounded_example : IsBounded 1 one_event
Reach-IsBounded_example = Reach-IsBounded 1 one_event one_event_reached

deadlock_reachable_example :
    (s : System) × Reach (start 2) s × IsStuck s × ((t : System) → Reach s t → t ≡ s)
deadlock_reachable_example = deadlock_reachable issue stamp "09:02" 1
