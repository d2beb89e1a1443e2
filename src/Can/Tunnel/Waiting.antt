-- ===== src/Can/Tunnel/Waiting.antt =====
-- What the queues hold after a packet of the router.
use air_link.Base.{
  ℕ, ◌-◌, length-append, ◌≤◌, ◌<◌, List, [], ◌∷◌, ◌++◌, ◌≡◌, refl, sym, ap, ap₂, ◌∙◌, arith, Bool,
  true, false, Option, none, some,
}
use air_link.Base.{
  not, ◌||◌, ltb, ◌==◌, lt→ltb, if◌then◌else◌, length, drop, if-both, Bool-cases, inl, inr,
}
use mathlib.Core.Path.{subst}
use air_link.Can.Queue.{Queue}
use air_link.Can.Tunnel.{
  Packet, Tunnel, Counters, Answer, esp_ok, no_mem, increment_saturated, send_to_full_normal,
  high_queue_depth, normal_queue_depth, can_router_send,
}

-- The packets that wait, and those that were lost.
pub record Waiting : Type 0 where
  pub high : List Packet
  pub normal : List Packet
  pub high_lost : ℕ
  pub normal_lost : ℕ

-- A packet of the router, with room for 16 high ones and 32 normal ones: a high one goes behind the
-- others or is refused, a normal one goes behind the others, and the first of them is lost when
-- there is no room.
pub offered : Waiting → Packet → Waiting × Answer
offered w p =
    if p.high_priority
    then if ltb (length w.high) 16
      then (record w { high = w.high ++ p ∷ [] }, esp_ok)
      else (record w { high_lost = increment_saturated w.high_lost }, no_mem)
    else if ltb (length w.normal) 32
    then (record w { normal = w.normal ++ p ∷ [] }, esp_ok)
    else (
      record w {
        normal = drop {A = Packet} 1 w.normal ++ p ∷ [];
        normal_lost = increment_saturated w.normal_lost;
      },
      esp_ok,
    )

length-drop_one : (xs : List Packet) → length (drop {A = Packet} 1 xs) ≡ length xs - 1
length-drop_one [] = refl
length-drop_one (x ∷ xs) = omega arith

module _ (queue : Queue Packet) where
  -- Sending to a queue, by its room.
  send-both {ℓ} :
      (P : queue.Handle × Bool → Type ℓ) (q : queue.Handle) (packet : Packet) (n : ℕ)
      → queue.depth q ≡ n
      → (length (queue.contents q) < n
          → (r : queue.Handle × Bool) → r.1 ≡ true
          → queue.contents r.0 ≡ queue.contents q ++ packet ∷ []
          → P r)
      → (n ≤ length (queue.contents q) → P (q, false))
      → P (queue.send q packet)
  send-both P q packet n e room full = elim (Bool-cases (ltb (length (queue.contents q)) n)) [
    | inl lt ↦
        let (sent, holds) = queue.send_room q packet (ground (arith, lt, e)) in
        room (ground (arith, lt)) _ sent holds
    | inr ge ↦
        subst P (sym (queue.send_full q packet (ground (arith, ge, e)))) (full (ground (arith, ge)))
  ]

  abbrev pub waiting : Tunnel queue → Waiting
  waiting t = record {
    high = queue.contents t.high;
    normal = queue.contents t.normal;
    high_lost = t.counters.high_queue_drops;
    normal_lost = t.counters.normal_queue_drops;
  }

  abbrev seen : Tunnel queue × Answer → Waiting × Answer
  seen r = (waiting r.0, r.1)

  full_normal :
      (t : Tunnel queue) (p : Packet) (first : Packet) (rest : List Packet)
      → queue.contents t.normal ≡ first ∷ rest
      → length (first ∷ rest) ≤ queue.depth t.normal
      → seen (send_to_full_normal queue t p) ≡ (
        record (waiting t) {
          normal = rest ++ p ∷ [];
          normal_lost = increment_saturated t.counters.normal_queue_drops;
        },
        esp_ok,
      )
  unfolding send_to_full_normal
  full_normal t p first rest e le =
      let (given, shorter) = queue.receive_first t.normal first rest e in
      let (room, again) = queue.send_room (queue.receive t.normal).0 p (
        omega
          (arith, le, ap (λ (l : List Packet). length l) shorter, queue.receive_depth t.normal)) in
      shape (queue.receive t.normal).1 (queue.send (queue.receive t.normal).0 p) given room
        (again ∙ ap (λ l. l ++ p ∷ []) shorter)
    where
      counted : Counters
      counted = record (t.counters) {
        normal_queue_drops = increment_saturated t.counters.normal_queue_drops;
      }

      shape :
          (o : Option Packet) (sent : queue.Handle × Bool)
          → o ≡ some first
          → sent.1 ≡ true
          → queue.contents sent.0 ≡ rest ++ p ∷ []
          → seen (elim o as (λ _. Tunnel queue × Answer) [
            | none ↦ (record t { normal = (queue.receive t.normal).0; counters = counted }, no_mem)
            | some x ↦ (
              record t { normal = sent.0; counters = counted },
              if sent.1 then esp_ok else no_mem,
            )
          ])
            ≡ (
              record (waiting t) {
                normal = rest ++ p ∷ [];
                normal_lost = increment_saturated t.counters.normal_queue_drops;
              },
              esp_ok,
            )
      shape none sent e room holds = absurd (cc)
      shape (some x) sent e room holds =
          ap₂
            (λ (l : List Packet) (b : Bool). (
              record (waiting t) {
                normal = l;
                normal_lost = increment_saturated t.counters.normal_queue_drops;
              },
              if b then esp_ok else no_mem,
            ))
            holds room

  send_to_full-offered :
      (t : Tunnel queue) (p : Packet) (xs : List Packet)
      → queue.contents t.normal ≡ xs
      → 1 ≤ length xs
      → length xs ≤ queue.depth t.normal
      → seen (send_to_full_normal queue t p) ≡ (
        record (waiting t) {
          normal = drop {A = Packet} 1 xs ++ p ∷ [];
          normal_lost = increment_saturated t.counters.normal_queue_drops;
        },
        esp_ok,
      )
  send_to_full-offered t p [] e one le = absurd (omega arith)
  send_to_full-offered t p (first ∷ rest) e one le = full_normal t p first rest e le

  high-offered :
      (t : Tunnel queue) (p : Packet)
      → queue.depth t.high ≡ 16
      → seen (
          if (queue.send t.high p).1
          then (record t { high = (queue.send t.high p).0 }, esp_ok)
          else (
            record t {
              high = (queue.send t.high p).0;
              counters = record (t.counters) {
                high_queue_drops = increment_saturated t.counters.high_queue_drops;
              };
            },
            no_mem,
          ))
        ≡ (if ltb (length (queue.contents t.high)) 16
            then (record (waiting t) { high = queue.contents t.high ++ p ∷ [] }, esp_ok)
            else (
              record (waiting t) { high_lost = increment_saturated t.counters.high_queue_drops },
              no_mem,
            ))
  high-offered t p e =
      send-both
        (λ r.
          seen (
            if r.1 then (record t { high = r.0 }, esp_ok) else (
              record t {
                high = r.0;
                counters = record (t.counters) {
                  high_queue_drops = increment_saturated t.counters.high_queue_drops;
                };
              },
              no_mem,
            ))
          ≡ (if ltb (length (queue.contents t.high)) 16
              then (record (waiting t) { high = queue.contents t.high ++ p ∷ [] }, esp_ok)
              else (
                record (waiting t) { high_lost = increment_saturated t.counters.high_queue_drops },
                no_mem,
              )))
        t.high p 16 e
        (λ lt r sent holds.
          rw (sent, lt→ltb (length (queue.contents t.high)) 16 lt)
            (ap (λ (l : List Packet). (record (waiting t) { high = l }, esp_ok)) holds))
        (λ ge.
          let no : ltb (length (queue.contents t.high)) 16 ≡ false = ground (arith, ge) in
          rw no refl)

  normal-offered :
      (t : Tunnel queue) (p : Packet)
      → queue.depth t.normal ≡ 32
      → length (queue.contents t.normal) ≤ 32
      → seen (
          if (queue.send t.normal p).1
          then (record t { normal = (queue.send t.normal p).0 }, esp_ok)
          else send_to_full_normal queue (record t { normal = (queue.send t.normal p).0 }) p)
        ≡ (if ltb (length (queue.contents t.normal)) 32
            then (record (waiting t) { normal = queue.contents t.normal ++ p ∷ [] }, esp_ok)
            else (
              record (waiting t) {
                normal = drop {A = Packet} 1 (queue.contents t.normal) ++ p ∷ [];
                normal_lost = increment_saturated t.counters.normal_queue_drops;
              },
              esp_ok,
            ))
  normal-offered t p e fits =
      send-both
        (λ r.
          seen (
            if r.1
            then (record t { normal = r.0 }, esp_ok)
            else send_to_full_normal queue (record t { normal = r.0 }) p)
          ≡ (if ltb (length (queue.contents t.normal)) 32
              then (record (waiting t) { normal = queue.contents t.normal ++ p ∷ [] }, esp_ok)
              else (
                record (waiting t) {
                  normal = drop {A = Packet} 1 (queue.contents t.normal) ++ p ∷ [];
                  normal_lost = increment_saturated t.counters.normal_queue_drops;
                },
                esp_ok,
              )))
        t.normal p 32 e
        (λ lt r sent holds.
          rw (sent, lt→ltb (length (queue.contents t.normal)) 32 lt)
            (ap (λ (l : List Packet). (record (waiting t) { normal = l }, esp_ok)) holds))
        (λ ge.
          let no : ltb (length (queue.contents t.normal)) 32 ≡ false = ground (arith, ge) in
          rw no (
            send_to_full-offered t p (queue.contents t.normal) refl (omega (arith, ge))
              (omega (arith, fits, e))))

  -- The queues as `airlink_can_start` creates them, with no more in them than they have room for.
  pub record Ready (t : Tunnel queue) : Type 0 where
    pub high_depth : queue.depth t.high ≡ high_queue_depth
    pub normal_depth : queue.depth t.normal ≡ normal_queue_depth
    pub high_fits : length (queue.contents t.high) ≤ 16
    pub normal_fits : length (queue.contents t.normal) ≤ 32

  can_router_send-seen :
      (t : Tunnel queue) (bytes : List ℕ) (high_priority : Bool)
      → Ready t
      → t.enabled ≡ true
      → 1 ≤ length bytes
      → length bytes ≤ 280
      → seen (can_router_send queue t bytes high_priority)
        ≡ offered (waiting t) (record { high_priority = high_priority; bytes = bytes })
  unfolding can_router_send offered
  can_router_send-seen t bytes true ready on low high =
      if-both (λ r. seen r ≡ offered (waiting t) (record { high_priority = true; bytes = bytes }))
        (not t.enabled || length bytes == 0 || ltb 280 (length bytes)) _ _
        (λ bad. absurd (ground (arith, bad, on, low, high)))
        (λ _. high-offered t (record { high_priority = true; bytes = bytes }) ready.high_depth)
  can_router_send-seen t bytes false ready on low high =
      if-both (λ r. seen r ≡ offered (waiting t) (record { high_priority = false; bytes = bytes }))
        (not t.enabled || length bytes == 0 || ltb 280 (length bytes)) _ _
        (λ bad. absurd (ground (arith, bad, on, low, high)))
        (λ _.
          normal-offered t (record { high_priority = false; bytes = bytes }) ready.normal_depth
            ready.normal_fits)

  -- No queue is exchanged for one with another room.
  can_router_send-depths :
      (t : Tunnel queue) (bytes : List ℕ) (high_priority : Bool)
      → let t' = (can_router_send queue t bytes high_priority).0 in
        (queue.depth t'.high ≡ queue.depth t.high) × (queue.depth t'.normal ≡ queue.depth t.normal)
  unfolding can_router_send send_to_full_normal
  can_router_send-depths t bytes high_priority =
      let p : Packet = record { high_priority = high_priority; bytes = bytes } in
      let refused = (queue.send t.normal p).0 in
      ground (
        arith,
        queue.send_depth t.high p,
        queue.send_depth t.normal p,
        queue.receive_depth refused,
        queue.send_depth (queue.receive refused).0 p,
      )

  -- What is offered goes beyond no queue's room.
  offered-fits :
      (w : Waiting) (p : Packet)
      → length w.high ≤ 16
      → length w.normal ≤ 32
      → let w' = (offered w p).0 in (length w'.high ≤ 16) × (length w'.normal ≤ 32)
  unfolding offered
  offered-fits w p high normal = ground (
    arith,
    length-append w.high (p ∷ []),
    length-append w.normal (p ∷ []),
    length-append (drop {A = Packet} 1 w.normal) (p ∷ []),
    length-drop_one w.normal,
  )

  -- On an enabled tunnel whose queues are those of 16 high and 32 normal packets that the start
  -- creates, filled no further, a packet of 1 to 280 bytes that the router sends does to the waiting
  -- packets and the counters what `offered` says: order is kept, a packet is lost only when its
  -- queue is full, a high one then being refused and a normal one pushing the oldest out, and each
  -- loss is counted. The queues then are again such queues.
  pub can_router_send-offered :
      (t : Tunnel queue) (bytes : List ℕ) (high_priority : Bool)
      → Ready t
      → t.enabled ≡ true
      → 1 ≤ length bytes
      → length bytes ≤ 280
      → let (t', answer) = can_router_send queue t bytes high_priority in
        ((waiting t', answer)
          ≡ offered (waiting t) (record { high_priority = high_priority; bytes = bytes }))
        × Ready t'
  can_router_send-offered t bytes high_priority ready on low high =
      let same = can_router_send-seen t bytes high_priority ready on low high in
      let (high_depth, normal_depth) = can_router_send-depths t bytes high_priority in
      let (high_fits, normal_fits) =
        subst (λ (r : Waiting × Answer). (length r.0.high ≤ 16) × (length r.0.normal ≤ 32))
          (sym same)
          (offered-fits (waiting t) (record { high_priority = high_priority; bytes = bytes })
            ready.high_fits ready.normal_fits) in
      (
        same,
        record {
          high_depth = high_depth ∙ ready.high_depth;
          normal_depth = normal_depth ∙ ready.normal_depth;
          high_fits = high_fits;
          normal_fits = normal_fits;
        },
      )
