-- ===== src/Router/State.antt =====
-- components/airlink_router/airlink_router.c: its types and static variables.
use air_link.Base.{ℕ, List, Bool, false}
use air_link.Mavlink.{Parser, fresh}

-- `airlink_route_mode_t`
pub data RouteMode : Type 0 where
  mavlink transparent : RouteMode

-- `airlink_endpoint_direction_t`
pub data Direction : Type 0 where
  vehicle gcs internal : Direction

-- `esp_err_t`, as far as the router returns it.
pub data Err : Type 0 where
  esp_ok invalid_arg invalid_state no_mem not_found : Err

-- `airlink_endpoint_stats_t`, without `queue_peak`, which the router does not write.
pub record Stats : Type 0 where
  pub bytes_in : ℕ
  pub bytes_out : ℕ
  pub frames_in : ℕ
  pub frames_out : ℕ
  pub parse_errors : ℕ
  pub queue_drops : ℕ
  pub last_activity_us : ℕ

-- `airlink_router_endpoint_t`: the callback with its context is known by the endpoint's id, and
-- the type and the name are not read by the router but for its log.
pub record Endpoint : Type 0 where
  pub id : ℕ
  pub direction : Direction

-- `endpoint_slot_t`
pub record Slot : Type 0 where
  pub used : Bool
  pub endpoint : Endpoint
  pub parser : Parser
  pub stats : Stats

-- `dedup_entry_t`
pub record Dedup : Type 0 where
  pub crc : ℕ
  pub time_us : ℕ

-- One call of an endpoint's `send`.
pub record Sent : Type 0 where
  pub to : ℕ
  pub bytes : List ℕ
  pub high_priority : Bool

-- The static variables of the file, with the calls of `send` so far, last first, and the number
-- of readings of the clock.
pub record Router : Type 0 where
  pub endpoints : List Slot
  pub dedup : List Dedup
  pub dedup_cursor : ℕ
  pub mode : RouteMode
  pub fc_armed : Bool
  pub fc_last_seen_us : ℕ
  pub fc_identity_known : Bool
  pub fc_system_id : ℕ
  pub sent : List Sent
  pub readings : ℕ

abbrev pub max_endpoints : ℕ
max_endpoints = 16

abbrev pub dedup_entries : ℕ
dedup_entries = 32

abbrev pub dedup_window_us : ℕ
dedup_window_us = 50000

abbrev pub no_stats : Stats
no_stats = record {
  bytes_in = 0;
  bytes_out = 0;
  frames_in = 0;
  frames_out = 0;
  parse_errors = 0;
  queue_drops = 0;
  last_activity_us = 0;
}

-- A slot of zeros. The direction with the number 0 is `vehicle`.
abbrev pub empty_slot : Slot
empty_slot = record {
  used = false;
  endpoint = record { id = 0; direction = vehicle };
  parser = fresh;
  stats = no_stats;
}
