-- ===== src/Mesh/Codec/RoundTrip.antt =====
-- What one side encodes, the other side decodes.
use air_link.Base.{ℕ, ◌+◌, ◌-◌, ◌%◌, ◌^◌, ◌≤◌, ◌<◌, List, ◌++◌, ◌≡◌, refl, sym, ap, ◌∙◌, arith}
use air_link.Base.{Bool, true, false, not, ◌||◌, inl, inr, Bool-cases, Option, some, Option-cases}
use air_link.Base.{
  length, take, drop, length-append, take-append, drop-append, ltb, ◌==◌, bit_and, bit_or,
  if◌then◌else◌,
}
use mathlib.Core.Path.{subst}
use air_link.Mesh.Bits.{bit-bit_or}
use air_link.Mesh.Replay.{Header, Window, replay_accept}
use air_link.Mesh.Replay.Once.{tested}
use air_link.Mesh.Wire.{Crypto, header_bytes, header_of, session_key, nonce_for}
use air_link.Mesh.Wire.Fields.{FitsWire, header_of-header_bytes, length-header_bytes}
use air_link.Mesh.Codec.{Context, decode_ok, next_header, encode, decode_ex, well_formed}

-- The flag that tells the direction comes through.
direction_flag :
    (flags : ℕ) (from_root : Bool)
    → flags % 2 ≡ 0
    → not (bit_and (bit_or flags (if from_root then 1 else 0) % 65536) 1 == 0) ≡ from_root
direction_flag flags true even =
    ground (arith, tested (bit_or flags 1 % 65536) 0, bit-bit_or flags 1 0)
direction_flag flags false even =
    ground (arith, tested (bit_or flags 0 % 65536) 0, bit-bit_or flags 0 0)

-- A node's context: addresses and identifiers of their sizes.
pub record IsContext (context : Context) : Type 0 where
  pub mac : length context.local_mac ≡ 6
  pub session : length context.session_id ≡ 16
  pub sequence : context.next_sequence < 2 ^ 64

next_header-FitsWire :
    (context : Context) (type flags : ℕ) (destination : List ℕ) (n : ℕ)
    → IsContext context
    → length destination ≡ 6
    → n ≤ 1392
    → FitsWire (next_header context type flags destination n)
unfolding next_header
next_header-FitsWire context type flags destination n v d h = record {
  magic = omega arith;
  flags = omega arith;
  source = v.mac;
  destination = d;
  session_id = v.session;
  sequence = v.sequence;
  payload_length = omega arith;
  reserved = omega arith;
}

-- What a successful `encode` did.
pub record Encoded (c : Crypto) (context : Context) (header : Header) (payload packet : List ℕ)
    : Type 0 where
  pub fits : length payload ≤ 1392
  pub key : List ℕ
  pub derived :
      session_key c context.fleet_key context.network_id header.source header.session_id
        context.from_root
      ≡ some key
  pub sealed : List ℕ
  pub sealing :
      c.seal key (nonce_for context.from_root header.sequence) (header_bytes header) payload
      ≡ some sealed
  pub made : packet ≡ header_bytes header ++ sealed

encode-Encoded :
    (c : Crypto) (context : Context) (type flags : ℕ) (destination payload : List ℕ) (capacity : ℕ)
    (packet : List ℕ)
    → (encode c context type flags destination payload capacity).1 ≡ some packet
    → Encoded c context (next_header context type flags destination (length payload)) payload packet
unfolding encode
encode-Encoded c context type flags destination payload capacity packet e =
    elim (Bool-cases guard) [
      | inl refused ↦ absurd (ground arith)
      | inr allowed ↦
          elim (Option-cases (
            session_key c context.fleet_key context.network_id header.source header.session_id
              context.from_root)) [
                | inl no_key ↦ absurd (ground arith)
                | inr (key, derived) ↦
                    elim (Option-cases (
                      c.seal key (nonce_for context.from_root header.sequence) (header_bytes header)
                        payload)) [
                          | inl not_sealed ↦ absurd (ground arith)
                          | inr (sealed, sealing) ↦ record {
                            fits = ground arith;
                            key = key;
                            derived = derived;
                            sealed = sealed;
                            sealing = sealing;
                            made = ground (arith, c.length-seal key _ _ payload sealed sealing);
                          }
                        ]
              ]
    ]
  where
    header : Header
    header = next_header context type flags destination (length payload)

    guard : Bool
    guard =
        ltb 1392 (length payload)
        || ltb capacity (48 + length payload + 16)
        || context.next_sequence == 2 ^ 64 - 1

-- A packet of 48 + n + 16 bytes whose header says so passes the checks.
packet-well_formed :
    (context : Context) (type flags : ℕ) (destination payload sealed : List ℕ)
    → let header = next_header context type flags destination (length payload) in
      FitsWire header
      → length payload ≤ 1392
      → length sealed ≡ length payload + 16
      → well_formed (header_bytes header ++ sealed) ≡ true
unfolding well_formed next_header
packet-well_formed context type flags destination payload sealed v le len =
    rw
      (header_of-header_bytes (next_header context type flags destination (length payload)) sealed
        v)
      (ground (
        arith,
        length-append (header_bytes (next_header context type flags destination (length payload)))
            sealed,
        length-header_bytes (next_header context type flags destination (length payload)) sealed v,
      ))

take_header :
    (h : Header) (sealed : List ℕ)
    → FitsWire h
    → take 48 (header_bytes h ++ sealed) ≡ header_bytes h
take_header h sealed v =
    ap (λ n. take n (header_bytes h ++ sealed)) (sym (length-header_bytes h sealed v))
    ∙ take-append (header_bytes h) sealed

drop_header :
    (h : Header) (sealed : List ℕ) → FitsWire h → drop 48 (header_bytes h ++ sealed) ≡ sealed
drop_header h sealed v =
    ap (λ n. drop n (header_bytes h ++ sealed)) (sym (length-header_bytes h sealed v))
    ∙ drop-append (header_bytes h) sealed

-- The path of `airlink_mesh_decode_ex` to an accepted packet.
decode_ex-accepted :
    (c : Crypto) (fleet_key network_id packet : List ℕ) (w w' : Window) (header : Header)
    (from_root : Bool) (key payload : List ℕ)
    → header_of packet ≡ header
    → not (bit_and header.flags 1 == 0) ≡ from_root
    → well_formed packet ≡ true
    → session_key c fleet_key network_id header.source header.session_id from_root ≡ some key
    → c.unseal key (nonce_for from_root header.sequence) (take 48 packet) (drop 48 packet)
      ≡ some payload
    → (length payload == header.payload_length) ≡ true
    → replay_accept w header ≡ (w', true)
    → decode_ex c fleet_key network_id packet w
      ≡ (w', decode_ok, some (record { header = header; payload = payload }))
unfolding decode_ex
decode_ex-accepted c fleet_key network_id packet w w' header from_root key payload h d wf derived
      opened same accepted =
    rw (wf, h, d, derived, h, d, opened, h, same, accepted) refl

-- A packet that `airlink_mesh_encode` makes, from a context with identifiers of their sizes, flags
-- without the direction bit and a destination of six bytes, decodes with the same fleet key and
-- network id to the header that was built and the payload, whenever the receiver's replay window
-- accepts the header; the window is then the one that `replay_accept` gives.
pub decode_ex-encode :
    (c : Crypto) (context : Context) (type flags : ℕ) (destination payload : List ℕ) (capacity : ℕ)
    (packet : List ℕ) (w w' : Window)
    → IsContext context
    → flags % 2 ≡ 0
    → length destination ≡ 6
    → (encode c context type flags destination payload capacity).1 ≡ some packet
    → replay_accept w (next_header context type flags destination (length payload)) ≡ (w', true)
    → decode_ex c context.fleet_key context.network_id packet w ≡ (
      w',
      decode_ok,
      some (record {
        header = next_header context type flags destination (length payload);
        payload = payload;
      }),
    )
decode_ex-encode c context type flags destination payload capacity packet w w' v even six e
      accepted =
    decode_ex-accepted c context.fleet_key context.network_id packet w w' header context.from_root
      done.key payload
      (subst (λ p. header_of p ≡ header) (sym done.made)
        (header_of-header_bytes header done.sealed wire))
      direction
      (subst (λ p. well_formed p ≡ true) (sym done.made)
        (packet-well_formed context type flags destination payload done.sealed wire done.fits
          (c.length-seal done.key _ _ payload done.sealed done.sealing)))
      done.derived
      (subst (λ p. unsealed (take 48 p) (drop 48 p) ≡ some payload) (sym done.made) opened)
      same_length accepted
  where
    header : Header
    header = next_header context type flags destination (length payload)

    done : Encoded c context header payload packet
    done = encode-Encoded c context type flags destination payload capacity packet e

    wire : FitsWire header
    wire = next_header-FitsWire context type flags destination (length payload) v six done.fits

    direction : not (bit_and header.flags 1 == 0) ≡ context.from_root
    direction = unfold next_header in direction_flag flags context.from_root even

    same_length : (length payload == header.payload_length) ≡ true
    same_length = unfold next_header in ground (arith, done.fits)

    unsealed : List ℕ → List ℕ → Option (List ℕ)
    unsealed = c.unseal done.key (nonce_for context.from_root header.sequence)

    opened :
        unsealed
          (take 48 (header_bytes header ++ done.sealed))
          (drop 48 (header_bytes header ++ done.sealed))
        ≡ some payload
    opened =
        ap (λ b. unsealed b (drop 48 (header_bytes header ++ done.sealed)))
          (take_header header done.sealed wire)
        ∙ ap (unsealed (header_bytes header)) (drop_header header done.sealed wire)
        ∙ c.unseal-seal done.key _ _ payload done.sealed done.sealing
