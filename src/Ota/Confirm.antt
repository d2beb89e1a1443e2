-- ===== src/Ota/Confirm.antt =====
-- components/airlink_ota/airlink_ota.c: the confirmation of a new image, or the way back to the old.
pub mod Tracked
pub mod Sustained
pub mod Deadline
pub mod Tests
use air_link.Base.{ℕ, ◌+◌, List, [], ◌∷◌, Bool, true, false, Option, none, some}
use air_link.Base.{not, ◌&&◌, ltb, leb, if◌then◌else◌}

-- `esp_ota_img_states_t`, as far as the file names it.
pub data ImageState : Type 0 where
  pending_verify other_state : ImageState

-- The state of the task: whether it runs, when it started, whether it confirmed the image, and how
-- often it asked for a rollback. `esp_ota_mark_app_invalid_rollback_and_reboot` returns only when
-- it fails.
pub record Task : Type 0 where
  pub running : Bool
  pub started : ℕ
  pub confirmed : Bool
  pub rollbacks : ℕ

-- `s_services_ready`, `s_services_ready_since_us`, `s_last_health_us`, and the task. Times are
-- microseconds of `esp_timer_get_time`.
pub record Health : Type 0 where
  pub ready : Bool
  pub ready_since : ℕ
  pub last_health : ℕ
  pub task : Task

-- `airlink_ota_services_ready`
pub services_ready : Health → ℕ → Bool → Health
services_ready s now ready =
    if ready && not s.ready
    then record s { ready = ready; ready_since = now; last_health = 0 }
    else if not ready && s.ready
    then record s { ready = ready; ready_since = 0; last_health = 0 }
    else record s { ready = ready }

-- `airlink_ota_health_heartbeat`
pub health_heartbeat : Health → ℕ → Bool → Health
health_heartbeat s now healthy = if healthy && s.ready then record s { last_health = now } else s

-- The test of `rollback_confirmation_task`. The differences are of signed numbers.
pub may_confirm : Health → ℕ → Bool
may_confirm s now =
    s.ready
    && ltb 0 s.ready_since
    && leb (s.ready_since + 30000000) now
    && leb s.ready_since s.last_health
    && leb now (s.last_health + 3000000)

-- The end of a round of the task: the deadline.
pub deadline_round : Health → ℕ → Health
deadline_round s now =
    if leb (s.task.started + 60000000) now
    then record s {
      task = record {
        running = s.task.running;
        started = s.task.started;
        confirmed = s.task.confirmed;
        rollbacks = s.task.rollbacks + 1;
      };
    }
    else s

-- A round of the task; the last argument is whether `esp_ota_mark_app_valid_cancel_rollback`
-- succeeds if it is called.
pub confirmation_round : Health → ℕ → Bool → Health
confirmation_round s now marked =
    if not s.task.running
    then s
    else if may_confirm s now && marked
    then record s {
      task = record {
        running = false;
        started = s.task.started;
        confirmed = true;
        rollbacks = s.task.rollbacks;
      };
    }
    else deadline_round (if may_confirm s now then services_ready s now false else s) now

-- The start: the variables are 0, and the task goes on only for an image that waits for it. `none`
-- is an error of `esp_ota_get_state_partition`.
pub task_starts : Option ImageState → Bool
task_starts (some pending_verify) = true
task_starts _ = false

pub confirmation_start : Option ImageState → ℕ → Health
confirmation_start image now = record {
  ready = false;
  ready_since = 0;
  last_health = 0;
  task = record { running = task_starts image; started = now; confirmed = false; rollbacks = 0 };
}

-- What happens to the state, each event at its time.
pub data Event : Type 0 where
  services heartbeat round : ℕ → Bool → Event

pub on_event : Health → Event → Health
on_event s (services now ready) = services_ready s now ready
on_event s (heartbeat now healthy) = health_heartbeat s now healthy
on_event s (round now marked) = confirmation_round s now marked

-- The state after the events, the last of which stands first.
pub after_events : Health → List Event → Health
after_events s [] = s
after_events s (event ∷ earlier) = on_event (after_events s earlier) event
