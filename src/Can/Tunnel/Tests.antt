-- ===== src/Can/Tunnel/Tests.antt =====
-- The tunnel with queues that never fail.
use air_link.Base.{
  ℕ, zero, ◌≤◌, ◌<◌, List, [], ◌∷◌, ◌++◌, ◌≡◌, refl, arith, Bool, true, false, Option, none, some,
}
use air_link.Base.{ltb, length, replicate, All, if◌then◌else◌, if-both}
use air_link.Can.Queue.{Queue}
use air_link.Can.Tunnel.{
  Packet, Tunnel, Transfer, can_router_send, dequeue, dequeue_in_order, taken_first, taken_in_order,
}
use air_link.Can.Tunnel.Waiting.{Ready, waiting, offered, can_router_send-offered}
use air_link.Can.Tunnel.Fair.{
  next_of, Starved, starved_start, starved_take, dequeue-next, Starved-le,
}
use air_link.Can.Tunnel.Pieces.{packet_bytes, transfer_bytes, unsent, rounds, rounds-bytes}

-- The room of a queue and its packets.
abbrev Packets : Type 0
Packets = ℕ × List Packet

abbrev put : Packets → Packet → Packets × Bool
put q p = if ltb (length q.1) q.0 then ((q.0, q.1 ++ p ∷ []), true) else (q, false)

abbrev got : Packets → Packets × Option Packet
got (n, []) = ((n, []), none)
got (n, x ∷ xs) = ((n, xs), some x)

put_room :
    (q : Packets) (p : Packet)
    → length q.1 < q.0
    → ((put q p).1 ≡ true) × ((put q p).0.1 ≡ q.1 ++ p ∷ [])
put_room q p lt =
    if-both (λ (r : Packets × Bool). (r.1 ≡ true) × (r.0.1 ≡ q.1 ++ p ∷ [])) (ltb (length q.1) q.0)
      _ _ (λ _. (refl, refl)) (λ bad. absurd (ground (arith, bad, lt)))

put_full : (q : Packets) (p : Packet) → q.0 ≤ length q.1 → put q p ≡ (q, false)
put_full q p ge =
    if-both (λ (r : Packets × Bool). r ≡ (q, false)) (ltb (length q.1) q.0) _ _
      (λ bad. absurd (ground (arith, bad, ge))) (λ _. refl)

put_depth : (q : Packets) (p : Packet) → (put q p).0.0 ≡ q.0
put_depth q p =
    if-both (λ (r : Packets × Bool). r.0.0 ≡ q.0) (ltb (length q.1) q.0) _ _ (λ _. refl) (λ _. refl)

got_depth : (q : Packets) → (got q).0.0 ≡ q.0
got_depth (n, []) = refl
got_depth (n, x ∷ xs) = refl

got-none : (q : Packets) → q.1 ≡ [] → got q ≡ (q, none)
got-none (n, []) e = refl
got-none (n, x ∷ q) e = absurd (cc)

got_first :
    (q : Packets) (x : Packet) (rest : List Packet)
    → q.1 ≡ x ∷ rest
    → ((got q).1 ≡ some x) × ((got q).0.1 ≡ rest)
got_first (n, []) x rest e = absurd (cc)
got_first (n, y ∷ q) x rest e = (cc, cc)

abbrev pair_queue : Queue Packet
pair_queue = record {
  Handle = Packets;
  depth = λ q. q.0;
  contents = λ q. q.1;
  send = put;
  receive = got;
  send_room = put_room;
  send_full = put_full;
  send_depth = put_depth;
  receive_depth = got_depth;
  receive_empty = got-none;
  receive_first = got_first;
}

abbrev a_packet : ℕ → Bool → Packet
a_packet = λ n high. record { high_priority = high; bytes = replicate n 253 }

abbrev a_tunnel : List Packet → List Packet → ℕ → Tunnel pair_queue
a_tunnel = λ high normal burst. record {
  enabled = true;
  high = (16, high);
  normal = (32, normal);
  counters = record {
    rx_bytes = 0;
    tx_bytes = 0;
    rx_transfers = 0;
    tx_transfers = 0;
    drops = 0;
    high_queue_drops = 0;
    normal_queue_drops = 5;
    keepalives = 0;
  };
  peer_last_seen = 0;
  active = none;
  offset = 0;
  high_burst = burst;
  last_keepalive = 0;
}

-- The normal queue is full.
abbrev full_tunnel : Tunnel pair_queue
full_tunnel = a_tunnel [] (replicate 32 (a_packet 12 false)) 0

full_tunnel-Ready : Ready pair_queue full_tunnel
full_tunnel-Ready = record {
  high_depth = refl;
  normal_depth = refl;
  high_fits = ground arith;
  normal_fits = ground arith;
}

can_router_send-offered_example :
    ((
      waiting pair_queue (can_router_send pair_queue full_tunnel (replicate 30 253) false).0,
      (can_router_send pair_queue full_tunnel (replicate 30 253) false).1,
    )
      ≡ offered (waiting pair_queue full_tunnel) (a_packet 30 false))
    × Ready pair_queue (can_router_send pair_queue full_tunnel (replicate 30 253) false).0
can_router_send-offered_example =
    can_router_send-offered pair_queue full_tunnel (replicate 30 253) false full_tunnel-Ready refl
      (ground arith) (ground arith)

abbrev busy_tunnel : Tunnel pair_queue
busy_tunnel = a_tunnel (a_packet 20 true ∷ []) (a_packet 12 false ∷ []) 7

dequeue-next_example :
    record {
      burst = (dequeue pair_queue busy_tunnel).0.high_burst;
      high = (dequeue pair_queue busy_tunnel).0.high.1;
      normal = (dequeue pair_queue busy_tunnel).0.normal.1;
      packet = (dequeue pair_queue busy_tunnel).1;
    }
    ≡ next_of 7 (a_packet 20 true ∷ []) (a_packet 12 false ∷ [])
dequeue-next_example = dequeue-next pair_queue busy_tunnel

one-Starved : Starved pair_queue busy_tunnel 1 (dequeue pair_queue busy_tunnel).0
unfolding dequeue dequeue_in_order taken_first taken_in_order
one-Starved =
    starved_take busy_tunnel busy_tunnel zero (a_packet 12 false) [] (starved_start busy_tunnel)
      refl refl

Starved-le_example : 1 ≤ 8
Starved-le_example =
    Starved-le pair_queue busy_tunnel (dequeue pair_queue busy_tunnel).0 1 one-Starved

abbrev long_tunnel : Tunnel pair_queue
long_tunnel = a_tunnel (a_packet 250 true ∷ []) (a_packet 130 false ∷ []) 0

rounds-bytes_example :
    let (end, packets, transfers) = rounds pair_queue 4 long_tunnel in
    (transfer_bytes transfers ++ unsent pair_queue end
      ≡ unsent pair_queue long_tunnel ++ packet_bytes packets)
    × All (λ (x : Transfer). length x.bytes ≤ 120) transfers
rounds-bytes_example = rounds-bytes pair_queue 4 long_tunnel
