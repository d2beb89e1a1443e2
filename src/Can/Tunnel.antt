-- ===== src/Can/Tunnel.antt =====
-- components/airlink_can/airlink_can.c and airlink_dronecan.c: the tunnel for MAVLink over CAN.
pub mod Waiting
pub mod Fair
pub mod Pieces
pub mod Tests
use air_link.Base.{ℕ, ◌+◌, ◌-◌, ◌%◌, ◌^◌, List, [], ◌∷◌, Bool, true, false, Option, none, some}
use air_link.Base.{not, ◌&&◌, ◌||◌, ltb, leb, ◌==◌, if◌then◌else◌, length, take, drop}
use air_link.Can.Queue.{Queue}

-- `airlink_dronecan_targetted_matches`; a serial id is the byte of the `int8_t`.
pub targetted_matches : ℕ → ℕ → ℕ → ℕ → ℕ → ℕ → ℕ → Bool
targetted_matches source protocol target serial_id local remote configured_serial_id =
    (protocol == 255 || protocol == 0 || protocol == 1)
    && source == remote
    && target == local
    && serial_id == configured_serial_id

-- `airlink_dronecan_chunk_size`
pub tunnel_chunk : ℕ → ℕ
tunnel_chunk remaining = if ltb 120 remaining then 120 else remaining

-- `airlink_dronecan_keepalive_due`, with the difference of the unsigned numbers.
pub keepalive_due : ℕ → ℕ → Bool
keepalive_due now last = leb 500000 ((now + 2 ^ 64 - last) % 2 ^ 64)

-- `increment_saturated_u32` and `add_saturated_u64`
pub increment_saturated : ℕ → ℕ
increment_saturated value = if value == 4294967295 then value else value + 1

pub add_saturated : ℕ → ℕ → ℕ
add_saturated value increment =
    if ltb (2 ^ 64 - 1 - value) increment then 2 ^ 64 - 1 else value + increment

-- `tunnel_packet_t`, as much of its data as it has.
pub record Packet : Type 0 where
  pub high_priority : Bool
  pub bytes : List ℕ

-- The numbers of `airlink_can_status_t` that the tunnel counts.
pub record Counters : Type 0 where
  pub rx_bytes : ℕ
  pub tx_bytes : ℕ
  pub rx_transfers : ℕ
  pub tx_transfers : ℕ
  pub drops : ℕ
  pub high_queue_drops : ℕ
  pub normal_queue_drops : ℕ
  pub keepalives : ℕ

-- What `can_router_send` answers.
pub data Answer : Type 0 where
  esp_ok invalid_arg no_mem : Answer

-- A transfer that `broadcast_targetted` gives to libcanard.
pub record Transfer : Type 0 where
  pub bytes : List ℕ
  pub priority : ℕ

-- A targetted message with the node it came from.
pub record Message : Type 0 where
  pub source : ℕ
  pub protocol : ℕ
  pub target : ℕ
  pub serial_id : ℕ
  pub buffer : List ℕ

-- What a round of the task meets: the clock, whether libcanard's queue is empty before the
-- keepalive and before the packets, and whether it takes a broadcast of each.
pub record Round : Type 0 where
  pub now : ℕ
  pub idle_first : Bool
  pub idle_second : Bool
  pub takes_keepalive : Bool
  pub takes_packet : Bool

-- How many packets the queues hold.
abbrev pub high_queue_depth : ℕ
high_queue_depth = 16

abbrev pub normal_queue_depth : ℕ
normal_queue_depth = 32

module _ (queue : Queue Packet) where
  -- The variables of the tunnel, those of `can_task` among them. `none` is no active packet.
  pub record Tunnel : Type 0 where
    pub enabled : Bool
    pub high : queue.Handle
    pub normal : queue.Handle
    pub counters : Counters
    pub peer_last_seen : ℕ
    pub active : Option Packet
    pub offset : ℕ
    pub high_burst : ℕ
    pub last_keepalive : ℕ

  -- A full queue in `can_router_send`: of the normal packets the first goes.
  pub send_to_full_normal : Tunnel → Packet → Tunnel × Answer
  send_to_full_normal t packet =
      let (shorter, discarded) = queue.receive t.normal in
      let (again, room) = queue.send shorter packet in
      let counted = record (t.counters) {
        normal_queue_drops = increment_saturated t.counters.normal_queue_drops;
      } in
      elim discarded [
        | none ↦ (record t { normal = shorter; counters = counted }, no_mem)
        | some first ↦
            (record t { normal = again; counters = counted }, if room then esp_ok else no_mem)
      ]

  -- `can_router_send`, `data` not NULL.
  pub can_router_send : Tunnel → List ℕ → Bool → Tunnel × Answer
  can_router_send t bytes high_priority =
      let packet : Packet = record { high_priority = high_priority; bytes = bytes } in
      let (high, high_room) = queue.send t.high packet in
      let (normal, normal_room) = queue.send t.normal packet in
      if not t.enabled || length bytes == 0 || ltb 280 (length bytes)
      then (t, invalid_arg)
      else if high_priority
      then if high_room then (record t { high = high }, esp_ok) else (
        record t {
          high = high;
          counters = record (t.counters) {
            high_queue_drops = increment_saturated t.counters.high_queue_drops;
          };
        },
        no_mem,
      )
      else if normal_room
      then (record t { normal = normal }, esp_ok)
      else send_to_full_normal (record t { normal = normal }) packet

  -- The last two attempts of `dequeue_tunnel_packet`, by what the queues give.
  pub taken_in_order :
      Tunnel → queue.Handle × Option Packet → queue.Handle × Option Packet → Tunnel × Option Packet
  taken_in_order t (high, some packet) second =
      (record t { high = high; high_burst = (t.high_burst + 1) % 4294967296 }, some packet)
  taken_in_order t (high, none) (normal, some packet) =
      (record t { high = high; normal = normal; high_burst = 0 }, some packet)
  taken_in_order t (high, none) (normal, none) = (record t { high = high; normal = normal }, none)

  pub dequeue_in_order : Tunnel → Tunnel × Option Packet
  dequeue_in_order t = taken_in_order t (queue.receive t.high) (queue.receive t.normal)

  -- The first attempt, by what the normal queue gives.
  pub taken_first : Tunnel → queue.Handle × Option Packet → Tunnel × Option Packet
  taken_first t (normal, some packet) = (record t { normal = normal; high_burst = 0 }, some packet)
  taken_first t (normal, none) = dequeue_in_order (record t { normal = normal })

  -- `dequeue_tunnel_packet`
  pub dequeue : Tunnel → Tunnel × Option Packet
  dequeue t =
      if leb 8 t.high_burst then taken_first t (queue.receive t.normal) else dequeue_in_order t

  -- What `broadcast_targetted` counts, by whether libcanard took the transfer.
  pub broadcast : Tunnel → List ℕ → Bool → Tunnel
  broadcast t bytes taken =
      if taken
      then record t {
        counters = record (t.counters) {
          tx_transfers = increment_saturated t.counters.tx_transfers;
          tx_bytes = add_saturated t.counters.tx_bytes (length bytes);
          keepalives =
              if length bytes == 0
              then increment_saturated t.counters.keepalives
              else t.counters.keepalives;
        };
      }
      else record t {
        counters = record (t.counters) { drops = increment_saturated t.counters.drops };
      }

  -- The next piece of the active packet, with what libcanard is given.
  pub send_piece : Tunnel → Packet → Bool → Tunnel × Option Transfer
  send_piece t packet taken =
      let piece =
        take (tunnel_chunk (length packet.bytes - t.offset)) (drop t.offset packet.bytes) in
      let offset = t.offset + tunnel_chunk (length packet.bytes - t.offset) in
      let t' = broadcast t piece taken in
      let priority = if packet.high_priority then 8 else 16 in
      if taken
      then (
        record t' {
          active = if ltb offset (length packet.bytes) then some packet else none;
          offset = offset;
        },
        some (record { bytes = piece; priority = priority }),
      )
      else (record t' { active = none }, none)

  -- The first piece of a packet that was taken from the queues.
  pub start_next : Tunnel × Option Packet → Bool → Tunnel × Option Transfer
  start_next (t, none) taken = (record t { offset = 0 }, none)
  start_next (t, some packet) taken = send_piece (record t { offset = 0 }) packet taken

  pub round_with : Tunnel → Option Packet → Bool → Tunnel × Option Transfer
  round_with t (some packet) taken = send_piece t packet taken
  round_with t none taken = start_next (dequeue t) taken

  -- The packets' part of a round of `can_task`.
  pub packet_round : Tunnel → Bool → Tunnel × Option Transfer
  packet_round t taken = round_with t t.active taken

  -- The keepalive of a round: an empty transfer.
  pub keepalive_round : Tunnel → Round → Tunnel
  keepalive_round t r =
      let t' = broadcast t [] r.takes_keepalive in
      if not (t.enabled && r.idle_first && keepalive_due r.now t.last_keepalive)
      then t
      else if r.takes_keepalive
      then record t' { last_keepalive = r.now }
      else t'

  -- The tunnel's part of a round of `can_task`, with the transfer of a packet that was taken.
  pub tunnel_round : Tunnel → Round → Tunnel × Option Transfer
  tunnel_round t r =
      let t' = keepalive_round t r in
      if t'.enabled && r.idle_second then packet_round t' r.takes_packet else (t', none)

  -- `receive_targetted` of a message that decoded, at a time, with the local and remote node and
  -- the serial id of the tunnel. `ingest` is whether `airlink_router_ingest` answers ESP_OK. Also
  -- the bytes that the router gets.
  pub receive_targetted : ℕ → ℕ → ℕ → (List ℕ → Bool) → Tunnel → ℕ → Message → Tunnel × List ℕ
  receive_targetted local remote serial_id ingest t now m =
      let dropped = record (t.counters) { drops = increment_saturated t.counters.drops } in
      let counted = record (t.counters) {
        rx_transfers = increment_saturated t.counters.rx_transfers;
        rx_bytes = add_saturated t.counters.rx_bytes (length m.buffer);
        drops =
            if ltb 0 (length m.buffer) && not (ingest m.buffer)
            then increment_saturated t.counters.drops
            else t.counters.drops;
      } in
      if not (targetted_matches m.source m.protocol m.target m.serial_id local remote serial_id)
      then (record t { counters = dropped }, [])
      else (record t { counters = counted; peer_last_seen = now }, m.buffer)
