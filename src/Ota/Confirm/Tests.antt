-- ===== src/Ota/Confirm/Tests.antt =====
-- Tests of the confirmation.
use air_link.Base.{List, [], ◌∷◌, ◌≡◌, refl, arith, true, false, some}
use air_link.Ota.Confirm.{
  Event, services, heartbeat, round, pending_verify, confirmation_start, after_events, on_event,
  services_ready, health_heartbeat, may_confirm, confirmation_round, deadline_round, task_starts,
}
use air_link.Ota.Confirm.Sustained.{ConfirmedBy, after_events-Sustained}
use air_link.Ota.Confirm.Deadline.{Settled, after_events-Settled}

-- Ready after 5 seconds, healthy after 34, and looked at after 36; another round after 70.
abbrev a_start : List Event
a_start =
    round 70000000 true ∷ round 36000000 true ∷ heartbeat 34000000 true ∷ services 5000000 true ∷ []

is_confirmed :
    (after_events (confirmation_start (some pending_verify) 1000) a_start).task.confirmed ≡ true
unfolding on_event services_ready health_heartbeat may_confirm confirmation_round deadline_round
    task_starts confirmation_start after_events
is_confirmed = refl

after_events-Sustained_example : ConfirmedBy a_start
after_events-Sustained_example =
    after_events-Sustained (some pending_verify) 1000 a_start is_confirmed

after_events-Settled_example :
    Settled
      (after_events
        (confirmation_start (some pending_verify) 1000)
        (heartbeat 62000000 true ∷ round 61000000 false ∷ services 5000000 true ∷ [])).task
after_events-Settled_example =
    after_events-Settled 1000 (heartbeat 62000000 true ∷ []) 61000000 false
      (services 5000000 true ∷ []) (ground arith)
