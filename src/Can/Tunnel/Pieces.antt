-- ===== src/Can/Tunnel/Pieces.antt =====
-- The packets are cut into pieces that libcanard gets in order.
use air_link.Base.{
  ℕ, zero, suc, ◌+◌, ◌-◌, ◌≤◌, List, [], ◌∷◌, ◌++◌, ◌≡◌, refl, sym, ap, ap₂, ◌∙◌, arith, true,
  Option, none, some,
}
use air_link.Base.{
  ltb, length, take, drop, take-append-drop, length-take, append_assoc, append-nil, All, All-append,
  if◌then◌else◌, if-both,
}
use mathlib.Core.Path.{subst}
use air_link.Can.Queue.{Queue}
use air_link.Can.Tunnel.{
  Packet, Tunnel, Transfer, tunnel_chunk, dequeue, dequeue_in_order, taken_first, taken_in_order,
  send_piece, start_next, round_with, packet_round,
}

drop_at : (a b : ℕ) (xs : List ℕ) → a ≡ b → drop a xs ≡ drop b xs
drop_at a b xs e = ap (λ n. drop n xs) e

drop-nil : (n : ℕ) → drop {A = ℕ} n [] ≡ []
drop-nil zero = refl
drop-nil (suc n) = refl

drop-drop : (c o : ℕ) (xs : List ℕ) → drop c (drop o xs) ≡ drop (o + c) xs
drop-drop c zero xs = drop_at c (0 + c) xs (omega arith)
drop-drop c (suc o) [] = drop-nil c ∙ sym (drop-nil (suc o + c))
drop-drop c (suc o) (x ∷ xs) =
    drop-drop c o xs ∙ drop_at (suc (o + c)) (suc o + c) (x ∷ xs) (omega arith)

drop_all : (n : ℕ) (xs : List ℕ) → length xs ≤ n → drop n xs ≡ []
drop_all zero [] h = refl
drop_all (suc n) [] h = refl
drop_all zero (x ∷ xs) h = absurd (omega arith)
drop_all (suc n) (x ∷ xs) h = drop_all n xs (omega arith)

-- The bytes of packets, and of transfers.
abbrev pub packet_bytes : List Packet → List ℕ
packet_bytes [] = []
packet_bytes (p ∷ rest) = p.bytes ++ packet_bytes rest

abbrev pub transfer_bytes : List Transfer → List ℕ
transfer_bytes [] = []
transfer_bytes (x ∷ rest) = x.bytes ++ transfer_bytes rest

abbrev pub listed {ℓ} : {A : Type ℓ} → Option A → List A
listed none = []
listed (some a) = a ∷ []

module _ (queue : Queue Packet) where
  -- What is still to be sent of the active packet.
  abbrev pub unsent_of : Option Packet → ℕ → List ℕ
  unsent_of none offset = []
  unsent_of (some packet) offset = drop offset packet.bytes

  abbrev pub unsent : Tunnel queue → List ℕ
  unsent t = unsent_of t.active t.offset

  -- The packet that a round takes from the queues.
  abbrev pub takes_of : Tunnel queue → Option Packet → List Packet
  takes_of t none = listed (dequeue queue t).1
  takes_of t (some packet) = []

  abbrev pub takes : Tunnel queue → List Packet
  takes t = takes_of t t.active

  -- So many rounds whose broadcasts libcanard takes: the state behind them, the packets that they
  -- take from the queues, and the transfers.
  pub rounds : ℕ → Tunnel queue → Tunnel queue × List Packet × List Transfer
  rounds zero t = (t, [], [])
  rounds (suc n) t =
      let (t', transfer) = packet_round queue t true in
      let (end, packets, transfers) = rounds n t' in
      (end, takes t ++ packets, listed transfer ++ transfers)

  -- One round sends a piece of what there is.
  record Sends (rest : List ℕ) (r : Tunnel queue × Option Transfer) : Type 0 where
    same : transfer_bytes (listed r.1) ++ unsent r.0 ≡ rest
    short : All (λ (x : Transfer). length x.bytes ≤ 120) (listed r.1)

  piece_lem :
      (packet : List ℕ) (o c : ℕ) → take c (drop o packet) ++ drop (o + c) packet ≡ drop o packet
  piece_lem packet o c =
      ap (λ l. take c (drop o packet) ++ l) (sym (drop-drop c o packet))
      ∙ take-append-drop c (drop o packet)

  chunk_le : (remaining : ℕ) → tunnel_chunk remaining ≤ 120
  unfolding tunnel_chunk
  chunk_le remaining = ground arith

  send_piece-Sends :
      (t : Tunnel queue) (packet : Packet)
      → Sends (drop t.offset packet.bytes) (send_piece queue t packet true)
  unfolding send_piece
  send_piece-Sends t packet = record {
    same =
        ap₂ (λ a b. a ++ b) (append-nil _) kept
        ∙ piece_lem packet.bytes t.offset (tunnel_chunk (length packet.bytes - t.offset));
    short = (
      subst (λ n. n ≤ 120)
          (sym (
            length-take (tunnel_chunk (length packet.bytes - t.offset))
              (drop t.offset packet.bytes)))
          (omega (arith, chunk_le (length packet.bytes - t.offset))),
      tt,
    );
  }
    where
      offset : ℕ
      offset = t.offset + tunnel_chunk (length packet.bytes - t.offset)

      kept :
          unsent_of (if ltb offset (length packet.bytes) then some packet else none) offset
          ≡ drop offset packet.bytes
      kept =
          if-both (λ (a : Option Packet). unsent_of a offset ≡ drop offset packet.bytes)
            (ltb offset (length packet.bytes)) _ _ (λ _. refl)
            (λ end. sym (drop_all offset packet.bytes (ground (arith, end))))

  dequeue-active : (t : Tunnel queue) → (dequeue queue t).0.active ≡ t.active
  unfolding dequeue dequeue_in_order taken_first taken_in_order
  dequeue-active t = ground arith

  start_next-Sends :
      (r : Tunnel queue × Option Packet)
      → r.0.active ≡ none
      → Sends (packet_bytes (listed r.1)) (start_next queue r true)
  unfolding start_next
  start_next-Sends (t, none) e = record { same = ap (λ a. unsent_of a 0) e; short = tt }
  start_next-Sends (t, some packet) e =
      let s = send_piece-Sends (record t { offset = 0 }) packet in
      record { same = s.same ∙ sym (append-nil packet.bytes); short = s.short }

  round_with-Sends :
      (t : Tunnel queue) (a : Option Packet)
      → t.active ≡ a
      → Sends (unsent_of a t.offset ++ packet_bytes (takes_of t a)) (round_with queue t a true)
  unfolding round_with
  round_with-Sends t none e = start_next-Sends (dequeue queue t) (dequeue-active t ∙ e)
  round_with-Sends t (some packet) e =
      let s = send_piece-Sends t packet in
      record { same = s.same ∙ sym (append-nil (drop t.offset packet.bytes)); short = s.short }

  round-Sends :
      (t : Tunnel queue) → Sends (unsent t ++ packet_bytes (takes t)) (packet_round queue t true)
  unfolding packet_round
  round-Sends t = round_with-Sends t t.active refl

  packet_bytes-append :
      (a b : List Packet) → packet_bytes (a ++ b) ≡ packet_bytes a ++ packet_bytes b
  packet_bytes-append [] b = refl
  packet_bytes-append (p ∷ a) b =
      ap (λ l. p.bytes ++ l) (packet_bytes-append a b)
      ∙ sym (append_assoc p.bytes (packet_bytes a) (packet_bytes b))

  transfer_bytes-append :
      (a b : List Transfer) → transfer_bytes (a ++ b) ≡ transfer_bytes a ++ transfer_bytes b
  transfer_bytes-append [] b = refl
  transfer_bytes-append (x ∷ a) b =
      ap (λ l. x.bytes ++ l) (transfer_bytes-append a b)
      ∙ sym (append_assoc x.bytes (transfer_bytes a) (transfer_bytes b))

  -- As long as libcanard takes the broadcasts, the transfers' bytes are, in order and without loss
  -- or repetition, what was unsent of the active packet and the bytes of the packets taken from
  -- the queues, up to what is unsent at the end; and no transfer has more than 120 bytes.
  pub rounds-bytes :
      (n : ℕ) (t : Tunnel queue)
      → let (end, packets, transfers) = rounds n t in
        (transfer_bytes transfers ++ unsent end ≡ unsent t ++ packet_bytes packets)
        × All (λ (x : Transfer). length x.bytes ≤ 120) transfers
  unfolding rounds
  rounds-bytes zero t = (sym (append-nil (unsent t)), tt)
  rounds-bytes (suc n) t =
      let s = round-Sends t in
      let t' = (packet_round queue t true).0 in
      let first = listed (packet_round queue t true).1 in
      let (end, packets, transfers) = rounds n t' in
      let (same, short) = rounds-bytes n t' in
      (
        ap (λ l. l ++ unsent end) (transfer_bytes-append first transfers)
            ∙ append_assoc (transfer_bytes first) (transfer_bytes transfers) (unsent end)
            ∙ ap (λ l. transfer_bytes first ++ l) same
            ∙ sym (append_assoc (transfer_bytes first) (unsent t') (packet_bytes packets))
            ∙ ap (λ l. l ++ packet_bytes packets) s.same
            ∙ append_assoc (unsent t) (packet_bytes (takes t)) (packet_bytes packets)
            ∙ ap (λ l. unsent t ++ l) (sym (packet_bytes-append (takes t) packets)),
        All-append _ first transfers s.short short,
      )
