-- ===== src/Ota/Confirm/Tracked.antt =====
-- What the variables say of the events while the services are ready.
use air_link.Base.{
  ℕ, ◌+◌, ◌≤◌, List, [], ◌∷◌, ◌++◌, ◌≡◌, refl, ap, arith, Bool, true, false, not, ◌&&◌, leb,
}
use air_link.Base.{Option, if-both, inl, inr, ◌⊎◌}
use mathlib.Core.Path.{subst}
use air_link.Ota.Confirm.{
  Health, ImageState, Event, services, heartbeat, round, services_ready, health_heartbeat,
  may_confirm, deadline_round, confirmation_round, confirmation_start, on_event, after_events,
}

-- No event in between takes the services' readiness back.
abbrev pub Unbroken : List Event → Type 0
Unbroken [] = Unit
Unbroken (services now true ∷ rest) = Unbroken rest
Unbroken (services now false ∷ rest) = ⊥
Unbroken (heartbeat now healthy ∷ rest) = Unbroken rest
Unbroken (round now marked ∷ rest) = Unbroken rest

-- One of the events is a healthy heartbeat at this time.
abbrev pub Beat : ℕ → List Event → Type 0
Beat t events =
    (later : List Event) × (earlier : List Event) × (events ≡ later ++ heartbeat t true ∷ earlier)

-- At this time, the services had been ready for 30 seconds, and a heartbeat of these seconds was
-- healthy at most 3 seconds ago.
pub record Sustained (now : ℕ) (events : List Event) : Type 0 where
  pub later : List Event
  pub earlier : List Event
  pub since : ℕ
  pub beat : ℕ
  pub split : events ≡ later ++ services since true ∷ earlier
  pub unbroken : Unbroken later
  pub long : since + 30000000 ≤ now
  pub beats : Beat beat later
  pub after_start : since ≤ beat
  pub lately : now ≤ beat + 3000000

-- What the variables say of the events while the services are ready.
pub record Ready (since last_health : ℕ) (events : List Event) : Type 0 where
  pub later : List Event
  pub earlier : List Event
  pub split : events ≡ later ++ services since true ∷ earlier
  pub unbroken : Unbroken later
  pub beats : (last_health ≡ 0) ⊎ Beat last_health later

abbrev pub Tracks : Bool → ℕ → ℕ → List Event → Type 0
Tracks true since last_health events = Ready since last_health events
Tracks false since last_health events = Unit

abbrev pub Tracked : List Event → Health → Type 0
Tracked events s = Tracks s.ready s.ready_since s.last_health events

ready_now :
    (s : Health) (events : List Event) (b : Bool)
    → s.ready ≡ b
    → Tracked events s
    → Tracks b s.ready_since s.last_health events
ready_now s events b e t = subst (λ x. Tracks x s.ready_since s.last_health events) e t

pub may_confirm-Sustained :
    (s : Health) (events : List Event) (now : ℕ)
    → Tracked events s
    → may_confirm s now ≡ true
    → Sustained now events
unfolding may_confirm
may_confirm-Sustained s events now t h =
    let r = ready_now s events true (ground (arith, h)) t in
    record {
      later = r.later;
      earlier = r.earlier;
      since = s.ready_since;
      beat = s.last_health;
      split = r.split;
      unbroken = r.unbroken;
      long = ground (arith, h);
      beats = elim (r.beats) [ inl zero ↦ absurd (ground (arith, h, zero)) | inr b ↦ b ];
      after_start = ground (arith, h);
      lately = ground (arith, h);
    }

-- An event more that does not break the readiness.
longer :
    (event : Event) (since last_health : ℕ) (events : List Event)
    → ((later : List Event) → Unbroken later → Unbroken (event ∷ later))
    → Ready since last_health events
    → Ready since last_health (event ∷ events)
longer event since last_health events keeps r = record {
  later = event ∷ r.later;
  earlier = r.earlier;
  split = ap (λ l. event ∷ l) r.split;
  unbroken = keeps r.later r.unbroken;
  beats = elim (r.beats) [
    | inl zero ↦ inl zero
    | inr (l, e, q) ↦ inr (event ∷ l, e, ap (λ x. event ∷ x) q)
  ];
}

longer-Tracks :
    (event : Event) (b : Bool) (since last_health : ℕ) (events : List Event)
    → ((later : List Event) → Unbroken later → Unbroken (event ∷ later))
    → Tracks b since last_health events
    → Tracks b since last_health (event ∷ events)
longer-Tracks event true since last_health events keeps t =
    longer event since last_health events keeps t
longer-Tracks event false since last_health events keeps t = tt

stopped-Tracked :
    (s : Health) (events : List Event) (now : ℕ) → Tracked events (services_ready s now false)
unfolding services_ready
stopped-Tracked s events now = if-both (Tracked events) s.ready _ _ (λ _. tt) (λ _. tt)

services-Tracked :
    (s : Health) (events : List Event) (now : ℕ) (ready : Bool)
    → Tracked events s
    → Tracked (services now ready ∷ events) (services_ready s now ready)
unfolding services_ready
services-Tracked s events now true t =
    if-both (Tracked (services now true ∷ events)) (not s.ready) _ _
      (λ _. record { later = []; earlier = events; split = refl; unbroken = tt; beats = inl refl })
      (λ on.
        longer (services now true) _ _ events (λ _ u. u)
          (ready_now s events true (ground (arith, on)) t))
services-Tracked s events now false t = stopped-Tracked s _ now

heartbeat-Tracked :
    (s : Health) (events : List Event) (now : ℕ) (healthy : Bool)
    → Tracked events s
    → Tracked (heartbeat now healthy ∷ events) (health_heartbeat s now healthy)
unfolding health_heartbeat
heartbeat-Tracked s events now false t =
    longer-Tracks (heartbeat now false) s.ready _ _ events (λ _ u. u) t
heartbeat-Tracked s events now true t =
    if-both (Tracked (heartbeat now true ∷ events)) s.ready _ _ (λ on. beaten s.ready t)
      (λ _. longer-Tracks (heartbeat now true) s.ready _ _ events (λ _ u. u) t)
  where
    beaten :
        (b : Bool)
        → Tracks b s.ready_since s.last_health events
        → Tracks b s.ready_since now (heartbeat now true ∷ events)
    beaten false t = tt
    beaten true r = record {
      later = heartbeat now true ∷ r.later;
      earlier = r.earlier;
      split = ap (λ l. heartbeat now true ∷ l) r.split;
      unbroken = r.unbroken;
      beats = inr ([], r.later, refl);
    }

round-Tracked :
    (s : Health) (events : List Event) (now : ℕ) (marked : Bool)
    → Tracked events s
    → Tracked (round now marked ∷ events) (confirmation_round s now marked)
unfolding confirmation_round deadline_round
round-Tracked s events now marked t =
    if-both (Tracked (round now marked ∷ events)) (not s.task.running) _ _ (λ _. kept)
      (λ _.
        if-both (Tracked (round now marked ∷ events)) (may_confirm s now && marked) _ _ (λ _. kept)
          (λ _.
            if-both (λ u. Tracked (round now marked ∷ events) (deadline_round u now))
              (may_confirm s now) _ _ (λ _. at_deadline _ (stopped-Tracked s _ now))
              (λ _. at_deadline s kept)))
  where
    kept : Tracked (round now marked ∷ events) s
    kept = longer-Tracks (round now marked) s.ready _ _ events (λ _ u. u) t

    at_deadline :
        (u : Health)
        → Tracked (round now marked ∷ events) u
        → Tracked (round now marked ∷ events) (deadline_round u now)
    at_deadline u k =
        if-both (Tracked (round now marked ∷ events)) (leb (u.task.started + 60000000) now) _ _
          (λ _. k) (λ _. k)

-- The task at the start.
pub start-Tracked :
    (image : Option ImageState) (began : ℕ) (events : List Event)
    → Tracked events (after_events (confirmation_start image began) events)
unfolding after_events confirmation_start on_event
start-Tracked image began [] = tt
start-Tracked image began (services now ready ∷ events) =
    services-Tracked _ events now ready (start-Tracked image began events)
start-Tracked image began (heartbeat now healthy ∷ events) =
    heartbeat-Tracked _ events now healthy (start-Tracked image began events)
start-Tracked image began (round now marked ∷ events) =
    round-Tracked _ events now marked (start-Tracked image began events)
