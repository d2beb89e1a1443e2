-- ===== src/Can/Tunnel/Fair.antt =====
-- Which packet is taken next, and that high ones do not keep a normal one waiting.
use air_link.Base.{
  ℕ, zero, suc, ◌+◌, ◌%◌, ◌≤◌, ◌<◌, List, [], ◌∷◌, ◌≡◌, refl, sym, ap, ◌∙◌, arith, Bool, false,
  Option, none, some,
}
use air_link.Base.{leb, length, if◌then◌else◌, if-both, inl, inr, ◌⊎◌}
use mathlib.Core.Path.{subst}
use air_link.Can.Queue.{Queue}
use air_link.Can.Tunnel.{
  Packet, Tunnel, taken_in_order, dequeue_in_order, taken_first, dequeue, send_to_full_normal,
  can_router_send,
}

-- The burst of high packets, the packets that wait, and the one that is taken.
pub record Taken : Type 0 where
  pub burst : ℕ
  pub high : List Packet
  pub normal : List Packet
  pub packet : Option Packet

-- High packets go first.
pub next_in_order : ℕ → List Packet → List Packet → Taken
next_in_order burst (h ∷ high) normal = record {
  burst = (burst + 1) % 4294967296;
  high = high;
  normal = normal;
  packet = some h;
}
next_in_order burst [] (n ∷ normal) = record {
  burst = 0;
  high = [];
  normal = normal;
  packet = some n;
}
next_in_order burst [] [] = record { burst = burst; high = []; normal = []; packet = none }

-- A normal packet goes first behind eight high ones.
pub next_of : ℕ → List Packet → List Packet → Taken
next_of burst high [] = next_in_order burst high []
next_of burst high (n ∷ normal) =
    if leb 8 burst
    then record { burst = 0; high = high; normal = normal; packet = some n }
    else next_in_order burst high (n ∷ normal)

next_early :
    (burst : ℕ) (high normal : List Packet)
    → leb 8 burst ≡ false
    → next_in_order burst high normal ≡ next_of burst high normal
unfolding next_of
next_early burst high [] early = refl
next_early burst high (n ∷ normal) early = rw early refl

-- With a normal packet waiting, a high one is taken only early in a row, and is counted.
next_of-stays :
    (burst : ℕ) (high : List Packet) (n : Packet) (normal : List Packet)
    → (next_of burst high (n ∷ normal)).normal ≡ n ∷ normal
    → (burst < 8) × ((next_of burst high (n ∷ normal)).burst ≡ burst + 1)
unfolding next_of next_in_order
next_of-stays burst high n normal =
    if-both Stays (leb 8 burst) _ _ (λ _ same. absurd (shorter same))
      (λ early. by_high high (ground (arith, early)))
  where
    Stays : Taken → Type 0
    Stays r = r.normal ≡ n ∷ normal → (burst < 8) × (r.burst ≡ burst + 1)

    shorter : normal ≡ n ∷ normal → ⊥
    shorter same =
        let lengths : length normal ≡ suc (length normal) =
          ap (λ (l : List Packet). length l) same in
        omega (arith, lengths)

    by_high : (hs : List Packet) → burst < 8 → Stays (next_in_order burst hs (n ∷ normal))
    by_high [] early same = absurd (shorter same)
    by_high (h ∷ hs) early same = (early, omega (arith, early))

module _ (queue : Queue Packet) where
  abbrev taken : Tunnel queue × Option Packet → Taken
  taken r = record {
    burst = r.0.high_burst;
    high = queue.contents r.0.high;
    normal = queue.contents r.0.normal;
    packet = r.1;
  }

  -- Receiving from a queue, by what it holds.
  receive-both {ℓ} :
      (P : queue.Handle × Option Packet → Type ℓ) (q : queue.Handle) (xs : List Packet)
      → queue.contents q ≡ xs
      → (xs ≡ [] → P (q, none))
      → ((h : queue.Handle) (x : Packet) (rest : List Packet)
          → xs ≡ x ∷ rest
          → queue.contents h ≡ rest
          → P (h, some x))
      → P (queue.receive q)
  receive-both P q [] e empty first = subst P (sym (queue.receive_empty q e)) (empty refl)
  receive-both P q (x ∷ rest) e empty first =
      let (given, shorter) = queue.receive_first q x rest e in
      subst (λ o. P ((queue.receive q).0, o)) (sym given) (first _ x rest refl shorter)

  in_order-next :
      (t : Tunnel queue)
      → taken (dequeue_in_order queue t)
        ≡ next_in_order t.high_burst (queue.contents t.high) (queue.contents t.normal)
  unfolding dequeue_in_order taken_in_order next_in_order
  in_order-next t =
      receive-both
        (λ r.
          taken (taken_in_order queue t r (queue.receive t.normal))
          ≡ next_in_order t.high_burst (queue.contents t.high) (queue.contents t.normal))
        t.high (queue.contents t.high) refl
        (λ none_high.
          receive-both
            (λ r.
              taken (taken_in_order queue t (t.high, none) r)
              ≡ next_in_order t.high_burst (queue.contents t.high) (queue.contents t.normal))
            t.normal (queue.contents t.normal) refl
            (λ none_normal. rw (none_high, none_normal) refl)
            (λ h x rest e shorter. rw (none_high, e, shorter) refl))
        (λ h x rest e shorter. rw (e, shorter) refl)

  -- `dequeue_tunnel_packet` takes the packet, and leaves the queues and the count of high packets in
  -- a row, that `next_of` says: the first high packet, or the first normal one when there is no
  -- high one or eight high ones or more were taken since the last normal one.
  pub dequeue-next :
      (t : Tunnel queue)
      → let (t', packet) = dequeue queue t in
        record {
          burst = t'.high_burst;
          high = queue.contents t'.high;
          normal = queue.contents t'.normal;
          packet = packet;
        }
        ≡ next_of t.high_burst (queue.contents t.high) (queue.contents t.normal)
  unfolding dequeue taken_first next_of
  dequeue-next t =
      if-both
        (λ r. taken r ≡ next_of t.high_burst (queue.contents t.high) (queue.contents t.normal))
        (leb 8 t.high_burst) _ _
        (λ late.
          receive-both
            (λ r.
              taken (taken_first queue t r)
              ≡ next_of t.high_burst (queue.contents t.high) (queue.contents t.normal))
            t.normal (queue.contents t.normal) refl (λ nothing. in_order-next t ∙ rw nothing refl)
            (λ h x rest e shorter. rw (e, shorter, late) refl))
        (λ early. in_order-next t ∙ next_early t.high_burst _ _ early)

  -- Takes from the high queue while a normal packet waits, with packets of the router in between.
  pub data Starved : Tunnel queue → ℕ → Tunnel queue → Type 0 where
    starved_start : (t : Tunnel queue) → Starved t zero t
    starved_send :
        (s t : Tunnel queue) (n : ℕ) (bytes : List ℕ) (high_priority : Bool)
        → Starved s n t
        → Starved s n (can_router_send queue t bytes high_priority).0
    starved_take :
        (s t : Tunnel queue) (n : ℕ) (waits : Packet) (behind : List Packet)
        → Starved s n t
        → queue.contents t.normal ≡ waits ∷ behind
        → queue.contents (dequeue queue t).0.normal ≡ waits ∷ behind
        → Starved s (suc n) (dequeue queue t).0

  send-burst :
      (t : Tunnel queue) (bytes : List ℕ) (high_priority : Bool)
      → (can_router_send queue t bytes high_priority).0.high_burst ≡ t.high_burst
  unfolding can_router_send send_to_full_normal
  send-burst t bytes high_priority = ground arith

  take-burst :
      (t : Tunnel queue) (waits : Packet) (behind : List Packet)
      → queue.contents t.normal ≡ waits ∷ behind
      → queue.contents (dequeue queue t).0.normal ≡ waits ∷ behind
      → (t.high_burst < 8) × ((dequeue queue t).0.high_burst ≡ t.high_burst + 1)
  take-burst t waits behind e stays =
      let spec = dequeue-next t ∙ ap (next_of t.high_burst (queue.contents t.high)) e in
      let (early, counted) =
        next_of-stays t.high_burst (queue.contents t.high) waits behind
          (ap (λ (r : Taken). r.normal) (sym spec) ∙ stays) in
      (early, ap (λ (r : Taken). r.burst) spec ∙ counted)

  -- Few were taken, and they were counted.
  Counted : ℕ → ℕ → Type 0
  Counted n burst = (n ≡ 0) ⊎ ((n ≤ burst) × (burst ≤ 8))

  Starved-Counted : (s t : Tunnel queue) (n : ℕ) → Starved s n t → Counted n t.high_burst
  unfolding Counted
  Starved-Counted s _ _ (starved_start _) = inl refl
  Starved-Counted s _ n (starved_send _ t _ bytes high r) =
      subst (Counted n) (sym (send-burst t bytes high)) (Starved-Counted s t n r)
  Starved-Counted s _ _ (starved_take _ t n waits behind r e stays) =
      let (early, counted) = take-burst t waits behind e stays in
      elim (Starved-Counted s t n r) [
        | inl none_yet ↦ inr (omega (arith, counted, none_yet), omega (arith, counted, early))
        | inr (le, _) ↦ inr (omega (arith, counted, le), omega (arith, counted, early))
      ]

  -- However the router's packets come in between, no more than eight packets in a row are taken
  -- from the high queue while a normal packet waits.
  pub Starved-le : (s t : Tunnel queue) (n : ℕ) → Starved s n t → n ≤ 8
  unfolding Counted
  Starved-le s t n r = elim (Starved-Counted s t n r) [
    | inl none_yet ↦ omega (arith, none_yet)
    | inr (le, most) ↦ omega (arith, le, most)
  ]
