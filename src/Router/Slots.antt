-- ===== src/Router/Slots.antt =====
-- components/airlink_router/airlink_router.c: the table of endpoints and the counters.
use air_link.Base.{ℕ, ◌+◌, ◌-◌, ◌^◌, List, [], ◌∷◌, Bool, true, false, map}
use air_link.Base.{Option, none, some, ◌&&◌, ltb, ◌==◌, if◌then◌else◌}
use air_link.Base.{set, get_or, replicate}
use air_link.Mavlink.{fresh, u32_max}
use air_link.Router.State.{
  RouteMode, vehicle, internal, Err, esp_ok, invalid_state, no_mem, Endpoint, Slot, Router,
  max_endpoints, dedup_entries, empty_slot,
}

-- `airlink_router_init`, when the mutex can be made.
unfoldable pub init : RouteMode → Router
init mode = record {
  endpoints = replicate max_endpoints empty_slot;
  dedup = replicate dedup_entries (record { crc = 0; time_us = 0 });
  dedup_cursor = 0;
  mode = mode;
  fc_armed = false;
  fc_last_seen_us = 0;
  fc_identity_known = false;
  fc_system_id = 0;
  sent = [];
  readings = 0;
}

-- `find_endpoint`: the index of the slot instead of a pointer to it.
unfoldable pub find_from : List Slot → ℕ → ℕ → Option ℕ
find_from [] id i = none
find_from (slot ∷ rest) id i =
    if slot.used && slot.endpoint.id == id then some i else find_from rest id (i + 1)

unfoldable pub find_endpoint : List Slot → ℕ → Option ℕ
find_endpoint slots id = find_from slots id 0

-- The loop of `airlink_router_register` over the slots: the first free one is taken.
unfoldable pub take_free : List Slot → Endpoint → Option (List Slot)
take_free [] endpoint = none
take_free (slot ∷ rest) endpoint =
    if slot.used
    then elim (take_free rest endpoint) [ none ↦ none | some rest' ↦ some (slot ∷ rest') ]
    else some (record slot { used = true; endpoint = endpoint; parser = fresh } ∷ rest)

-- `airlink_router_register`, its pointers not NULL.
unfoldable pub register : Router → Endpoint → Router × Err
register r endpoint = elim (find_endpoint r.endpoints endpoint.id) [
  | some _ ↦ (r, invalid_state)
  | none ↦ elim (take_free r.endpoints endpoint) [
    | some slots ↦ (record r { endpoints = slots }, esp_ok)
    | none ↦ (r, no_mem)
  ]
]

-- `airlink_router_unregister`
unfoldable pub unregister : Router → ℕ → Router
unregister r id = elim (find_endpoint r.endpoints id) [
  | some i ↦ record r { endpoints = set r.endpoints i empty_slot }
  | none ↦ r
]

-- `vehicle_side`
unfoldable pub vehicle_side : Slot → Bool
vehicle_side slot = elim slot.endpoint.direction [ vehicle ↦ true | _ ↦ false ]

unfoldable pub is_internal : Slot → Bool
is_internal slot = elim slot.endpoint.direction [ internal ↦ true | _ ↦ false ]

-- `add_u32_saturated` and `add_u64_saturated`
unfoldable pub add_u32_saturated : ℕ → ℕ → ℕ
add_u32_saturated value increment =
    if ltb (u32_max - value) increment then u32_max else value + increment

unfoldable pub add_u64_saturated : ℕ → ℕ → ℕ
add_u64_saturated value increment =
    if ltb (2 ^ 64 - 1 - value) increment then 2 ^ 64 - 1 else value + increment

-- The slot at an index that `find_endpoint` or a loop gave.
abbrev pub slot_at : Router → ℕ → Slot
slot_at r i = get_or r.endpoints i empty_slot

-- `airlink_mavlink_parser_reset(&s_endpoints[i].parser)`
unfoldable pub reset_parser : Slot → Slot
reset_parser slot = record slot { parser = fresh }

-- `airlink_router_set_mode`
unfoldable pub set_mode : Router → RouteMode → Router
set_mode r mode = record r { mode = mode; endpoints = map reset_parser r.endpoints }

-- A change of the slot at an index.
unfoldable pub update_slot : Router → ℕ → (Slot → Slot) → Router
update_slot r i f = record r { endpoints = set r.endpoints i (f (slot_at r i)) }

-- `esp_timer_get_time`: a reading is counted.
unfoldable pub read_clock : Router → Router
read_clock r = record r { readings = r.readings + 1 }
