-- ===== src/Ota/Confirm/Sustained.antt =====
-- When an image is confirmed.
use air_link.Base.{
  ℕ, ◌+◌, List, [], ◌∷◌, ◌++◌, ◌≡◌, refl, sym, ap, ◌∙◌, arith, Bool, true, false, not, ◌&&◌, leb,
}
use air_link.Base.{Option, if-both}
use air_link.Ota.Confirm.{
  Health, ImageState, Event, services, heartbeat, round, services_ready, health_heartbeat,
  may_confirm, deadline_round, confirmation_round, confirmation_start, on_event, after_events,
}
use air_link.Ota.Confirm.Tracked.{Tracked, Sustained, may_confirm-Sustained, start-Tracked}

-- A confirmation at one of the rounds, on the events before it.
abbrev pub ConfirmedBy : List Event → Type 0
ConfirmedBy events =
    (later : List Event) × (now : ℕ) × (earlier : List Event) × (events
      ≡ later ++ round now true ∷ earlier)
    × Sustained now earlier

-- The first event that changes `confirmed` is a round that may confirm.
abbrev Traced : List Event → Health → Type 0
Traced events s = s.task.confirmed ≡ true → ConfirmedBy events

round-Traced :
    (s : Health) (events : List Event) (now : ℕ) (marked : Bool)
    → Tracked events s
    → (s.task.confirmed ≡ true → ConfirmedBy (round now marked ∷ events))
    → Traced (round now marked ∷ events) (confirmation_round s now marked)
unfolding confirmation_round deadline_round services_ready
round-Traced s events now marked t k =
    if-both Here (not s.task.running) _ _ (λ _. k)
      (λ _.
        if-both Here (may_confirm s now && marked) _ _ (λ ripe _. confirmed marked ripe)
          (λ _.
            if-both (λ u. Here (deadline_round u now)) (may_confirm s now) _ _
              (λ _.
                if-both (λ u. Here (deadline_round u now)) s.ready _ _ (λ _. at_deadline _ k)
                  (λ _. at_deadline _ k))
              (λ _. at_deadline s k)))
  where
    Here : Health → Type 0
    Here u = u.task.confirmed ≡ true → ConfirmedBy (round now marked ∷ events)

    at_deadline : (u : Health) → Here u → Here (deadline_round u now)
    at_deadline u h = if-both Here (leb (u.task.started + 60000000) now) _ _ (λ _. h) (λ _. h)

    confirmed : (m : Bool) → (may_confirm s now && m) ≡ true → ConfirmedBy (round now m ∷ events)
    confirmed true ripe =
        ([], now, events, refl, may_confirm-Sustained s events now t (ground (arith, ripe)))
    confirmed false ripe = absurd (ground (arith, ripe))

pub services-task :
    (s : Health) (now : ℕ) (ready : Bool) → (services_ready s now ready).task ≡ s.task
unfolding services_ready
services-task s now ready =
    if-both (λ (u : Health). u.task ≡ s.task) (ready && not s.ready) _ _ (λ _. refl)
      (λ _.
        if-both (λ (u : Health). u.task ≡ s.task) (not ready && s.ready) _ _ (λ _. refl)
          (λ _. refl))

pub heartbeat-task :
    (s : Health) (now : ℕ) (healthy : Bool) → (health_heartbeat s now healthy).task ≡ s.task
unfolding health_heartbeat
heartbeat-task s now healthy =
    if-both (λ (u : Health). u.task ≡ s.task) (healthy && s.ready) _ _ (λ _. refl) (λ _. refl)

after_events-Traced :
    (image : Option ImageState) (began : ℕ) (events : List Event)
    → Traced events (after_events (confirmation_start image began) events)
unfolding after_events confirmation_start on_event
after_events-Traced image began [] confirmed = cc
after_events-Traced image began (services now ready ∷ events) confirmed =
    let s = after_events (confirmation_start image began) events in
    let (later, t, earlier, split, sustained) =
      after_events-Traced image began events
        (ap (λ x. x.confirmed) (sym (services-task s now ready)) ∙ confirmed) in
    (services now ready ∷ later, t, earlier, ap (λ l. services now ready ∷ l) split, sustained)
after_events-Traced image began (heartbeat now healthy ∷ events) confirmed =
    let s = after_events (confirmation_start image began) events in
    let (later, t, earlier, split, sustained) =
      after_events-Traced image began events
        (ap (λ x. x.confirmed) (sym (heartbeat-task s now healthy)) ∙ confirmed) in
    (
      heartbeat now healthy ∷ later,
      t,
      earlier,
      ap (λ l. heartbeat now healthy ∷ l) split,
      sustained,
    )
after_events-Traced image began (round now marked ∷ events) confirmed =
    round-Traced _ events now marked (start-Tracked image began events)
      (λ before.
        let (later, t, earlier, split, sustained) = after_events-Traced image began events before in
        (round now marked ∷ later, t, earlier, ap (λ l. round now marked ∷ l) split, sustained))
      confirmed

-- Whatever reports of readiness and health, and rounds of the task, follow on its start: when the
-- task has confirmed the image, it did so at one of its rounds, when the services had been ready
-- without a break for at least 30 seconds, and a heartbeat in that time, at most 3 seconds before
-- the round, was healthy.
pub after_events-Sustained :
    (image : Option ImageState) (began : ℕ) (events : List Event)
    → (after_events (confirmation_start image began) events).task.confirmed ≡ true
    → ConfirmedBy events
after_events-Sustained image began events confirmed =
    after_events-Traced image began events confirmed
