-- ===== src/Ota/Confirm/Deadline.antt =====
-- The deadline of the confirmation.
use air_link.Base.{
  ℕ, ◌+◌, ◌≤◌, List, [], ◌∷◌, ◌++◌, ◌≡◌, refl, sym, ap, ◌∙◌, arith, Bool, true, false, not, ◌&&◌,
  leb,
}
use air_link.Base.{some, if-both, inl, inr, ◌⊎◌}
use mathlib.Core.Path.{subst}
use air_link.Ota.Confirm.{
  Health, Task, pending_verify, Event, services, heartbeat, round, may_confirm, deadline_round,
  confirmation_round, confirmation_start, task_starts, on_event, after_events,
}
use air_link.Ota.Confirm.Sustained.{services-task, heartbeat-task}

-- The image is confirmed, or the way back was asked for.
abbrev pub Settled : Task → Type 0
Settled t = (t.confirmed ≡ true) ⊎ (1 ≤ t.rollbacks)

-- The task runs until it has confirmed.
abbrev Alive : ℕ → Task → Type 0
Alive began t = (t.started ≡ began) × ((t.running ≡ true) ⊎ (t.confirmed ≡ true))

-- What a round can do to the task.
round-task :
    (P : Task → Type 0) (s : Health) (now : ℕ) (marked : Bool)
    → P s.task
    → P (record {
      running = false;
      started = s.task.started;
      confirmed = true;
      rollbacks = s.task.rollbacks;
    })
    → P (record {
      running = s.task.running;
      started = s.task.started;
      confirmed = s.task.confirmed;
      rollbacks = s.task.rollbacks + 1;
    })
    → P (confirmation_round s now marked).task
unfolding confirmation_round deadline_round
round-task P s now marked same confirms rolls =
    if-both (λ (u : Health). P u.task) (not s.task.running) _ _ (λ _. same)
      (λ _.
        if-both (λ (u : Health). P u.task) (may_confirm s now && marked) _ _ (λ _. confirms)
          (λ _.
            if-both (λ (u : Health). P (deadline_round u now).task) (may_confirm s now) _ _
              (λ _. at_deadline _ (services-task s now false)) (λ _. at_deadline s refl)))
  where
    at_deadline : (u : Health) → u.task ≡ s.task → P (deadline_round u now).task
    at_deadline u e =
        if-both (λ (v : Health). P v.task) (leb (u.task.started + 60000000) now) _ _
          (λ _.
            subst
              (λ t. P (record {
                running = t.running;
                started = t.started;
                confirmed = t.confirmed;
                rollbacks = t.rollbacks + 1;
              }))
              (sym e) rolls)
          (λ _. subst P (sym e) same)

on_event-Settled : (s : Health) (event : Event) → Settled s.task → Settled (on_event s event).task
unfolding on_event
on_event-Settled s (services now ready) h = subst Settled (sym (services-task s now ready)) h
on_event-Settled s (heartbeat now healthy) h = subst Settled (sym (heartbeat-task s now healthy)) h
on_event-Settled s (round now marked) h =
    round-task Settled s now marked h (inl refl)
      (elim h [ inl c ↦ inl c | inr r ↦ inr (omega arith) ])

on_event-Alive :
    (began : ℕ) (s : Health) (event : Event)
    → Alive began s.task
    → Alive began (on_event s event).task
unfolding on_event
on_event-Alive began s (services now ready) h =
    subst (Alive began) (sym (services-task s now ready)) h
on_event-Alive began s (heartbeat now healthy) h =
    subst (Alive began) (sym (heartbeat-task s now healthy)) h
on_event-Alive began s (round now marked) h =
    round-task (Alive began) s now marked h (h.0, inr refl) h

after_events-Alive :
    (began : ℕ) (events : List Event)
    → Alive began (after_events (confirmation_start (some pending_verify) began) events).task
unfolding after_events confirmation_start task_starts
after_events-Alive began [] = (refl, inl refl)
after_events-Alive began (event ∷ events) =
    on_event-Alive began _ event (after_events-Alive began events)

-- A round at the deadline decides.
round-Settled :
    (began : ℕ) (s : Health) (now : ℕ) (marked : Bool)
    → Alive began s.task
    → began + 60000000 ≤ now
    → Settled (confirmation_round s now marked).task
unfolding confirmation_round deadline_round
round-Settled began s now marked (e, alive) late =
    if-both Here (not s.task.running) _ _
      (λ stopped. elim alive [ inl on ↦ absurd (ground (arith, stopped, on)) | inr c ↦ inl c ])
      (λ _.
        if-both Here (may_confirm s now && marked) _ _ (λ _. inl refl)
          (λ _.
            if-both (λ u. Here (deadline_round u now)) (may_confirm s now) _ _
              (λ _. at_deadline _ (ap (λ t. t.started) (services-task s now false) ∙ e))
              (λ _. at_deadline s e)))
  where
    Here : Health → Type 0
    Here u = Settled u.task

    at_deadline : (u : Health) → u.task.started ≡ began → Here (deadline_round u now)
    at_deadline u b =
        if-both Here (leb (u.task.started + 60000000) now) _ _ (λ _. inr (omega arith))
          (λ early. absurd (ground (arith, early, b, late)))

-- An image that waits for its confirmation does not wait for ever: once a round of the task has
-- come 60 seconds or more after the task's start, whatever reports and rounds came before and
-- after it, the image is confirmed or a rollback was asked for.
pub after_events-Settled :
    (began : ℕ) (later : List Event) (now : ℕ) (marked : Bool) (earlier : List Event)
    → began + 60000000 ≤ now
    → Settled
        (after_events
          (confirmation_start (some pending_verify) began)
          (later ++ round now marked ∷ earlier)).task
unfolding after_events on_event
after_events-Settled began [] now marked earlier late =
    round-Settled began _ now marked (after_events-Alive began earlier) late
after_events-Settled began (event ∷ later) now marked earlier late =
    on_event-Settled _ event (after_events-Settled began later now marked earlier late)
