-- ===== src/Mesh/Codec.antt =====
-- components/airlink_mesh/airlink_mesh_codec.c: `airlink_mesh_encode` and
-- `airlink_mesh_decode_ex`, their pointers not NULL.
pub mod RoundTrip
pub mod Tests
use air_link.Base.{ℕ, ◌+◌, ◌-◌, ◌%◌, ◌^◌, List, ◌++◌, Bool}
use air_link.Base.{
  Option, none, some, not, ◌&&◌, ◌||◌, ltb, ◌==◌, if◌then◌else◌, length, take, drop,
}
use air_link.Base.{bit_and, bit_or}
use air_link.Mesh.Replay.{Header, Window, replay_accept}
use air_link.Mesh.Wire.{Crypto, header_bytes, header_of, session_key, nonce_for}

-- "ALM1", the version and the sizes of airlink_mesh_codec.h.
abbrev pub protocol_magic : ℕ
protocol_magic = 0x314d_4c41

abbrev pub protocol_version : ℕ
protocol_version = 1

abbrev pub header_size : ℕ
header_size = 48

abbrev pub tag_size : ℕ
tag_size = 16

abbrev pub max_packet : ℕ
max_packet = 1456

abbrev pub max_payload : ℕ
max_payload = 1392

-- `airlink_mesh_crypto_context_t`
pub record Context : Type 0 where
  pub fleet_key : List ℕ
  pub network_id : List ℕ
  pub local_mac : List ℕ
  pub session_id : List ℕ
  pub next_sequence : ℕ
  pub from_root : Bool

-- `airlink_mesh_decode_result_t`
pub data DecodeResult : Type 0 where
  decode_ok malformed auth_failed replayed : DecodeResult

-- `airlink_mesh_decoded_packet_t`
pub record Decoded : Type 0 where
  pub header : Header
  pub payload : List ℕ

-- The header of the next packet.
pub next_header : Context → ℕ → ℕ → List ℕ → ℕ → Header
next_header context type flags destination payload_length = record {
  magic = protocol_magic;
  version = protocol_version;
  type = type % 256;
  flags = bit_or flags (if context.from_root then 1 else 0) % 65536;
  source = context.local_mac;
  destination = destination;
  session_id = context.session_id;
  sequence = context.next_sequence;
  payload_length = payload_length % 65536;
  reserved = 0;
}

-- `airlink_mesh_encode`: the packet stands for the result true with what `*output` holds. The
-- sequence number is used up also when the cryptography fails.
pub encode : Crypto → Context → ℕ → ℕ → List ℕ → List ℕ → ℕ → Context × Option (List ℕ)
encode c context type flags destination payload capacity =
    if ltb max_payload (length payload)
      || ltb capacity (header_size + length payload + tag_size)
      || context.next_sequence == 2 ^ 64 - 1
    then (context, none)
    else let header = next_header context type flags destination (length payload) in
      let used = record context { next_sequence = context.next_sequence + 1 } in
      elim (session_key c context.fleet_key context.network_id header.source header.session_id
        context.from_root) [
          | none ↦ (used, none)
          | some key ↦
              elim (c.seal key (nonce_for context.from_root header.sequence) (header_bytes header)
                payload) [
                  | none ↦ (used, none)
                  | some sealed ↦
                      if length sealed == length payload + tag_size
                      then (used, some (header_bytes header ++ sealed))
                      else (used, none)
                ]
        ]

-- The checks of `airlink_mesh_decode_ex` on the length and the header.
pub well_formed : List ℕ → Bool
well_formed packet =
    let header = header_of packet in
    not (ltb (length packet) (header_size + tag_size) || ltb max_packet (length packet))
    && header.magic == protocol_magic
    && header.version == protocol_version
    && header.reserved == 0
    && not (ltb max_payload header.payload_length)
    && length packet == header_size + header.payload_length + tag_size

-- `airlink_mesh_decode_ex`: the window is changed only behind the authentication.
pub decode_ex : Crypto → List ℕ → List ℕ → List ℕ → Window → Window × DecodeResult × Option Decoded
decode_ex c fleet_key network_id packet replay =
    if not (well_formed packet)
    then (replay, malformed, none)
    else let header = header_of packet in
      let from_root = not (bit_and header.flags 1 == 0) in
      elim (session_key c fleet_key network_id header.source header.session_id from_root) [
        | none ↦ (replay, auth_failed, none)
        | some key ↦
            elim (c.unseal key (nonce_for from_root header.sequence) (take header_size packet)
              (drop header_size packet)) [
                | none ↦ (replay, auth_failed, none)
                | some payload ↦
                    if not (length payload == header.payload_length)
                    then (replay, auth_failed, none)
                    else let (window, accepted) = replay_accept replay header in
                      if accepted
                      then (window, decode_ok, some (record { header = header; payload = payload }))
                      else (window, replayed, none)
              ]
      ]
