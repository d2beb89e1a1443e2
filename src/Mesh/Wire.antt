-- ===== src/Mesh/Wire.antt =====
-- components/airlink_mesh/airlink_mesh_codec.c: the packed header on the wire, and the keys and
-- nonces of a packet. HKDF and AES-GCM are of the PSA library: they are the parameter `Crypto`.
use air_link.Base.{ℕ, ◌+◌, ◌*◌, ◌/◌, ◌%◌, ◌^◌, List, [], ◌∷◌, ◌++◌, Bool}
pub mod Fields
use air_link.Base.{Option, none, some, ◌≡◌, length, take, drop, get_or, if◌then◌else◌}
use air_link.Mesh.Replay.{Header}

-- Little-endian words, as the ESP32 stores them.
pub le16 : ℕ → List ℕ
le16 n = n % 256 ∷ n / 256 % 256 ∷ []

pub le32 : ℕ → List ℕ
le32 n = n % 256 ∷ n / 256 % 256 ∷ n / 256 ^ 2 % 256 ∷ n / 256 ^ 3 % 256 ∷ []

pub le64 : ℕ → List ℕ
le64 n = le32 (n % 2 ^ 32) ++ le32 (n / 2 ^ 32)

pub of_le16 : List ℕ → ℕ
of_le16 bytes = get_or bytes 0 0 + get_or bytes 1 0 * 256

pub of_le32 : List ℕ → ℕ
of_le32 bytes =
    get_or bytes 0 0
    + get_or bytes 1 0 * 256
    + get_or bytes 2 0 * 256 ^ 2
    + get_or bytes 3 0 * 256 ^ 3

pub of_le64 : List ℕ → ℕ
of_le64 bytes = of_le32 bytes + of_le32 (drop 4 bytes) * 2 ^ 32

-- `memcpy(output, &header, sizeof(header))` of the packed struct.
pub header_bytes : Header → List ℕ
header_bytes h =
    le32 h.magic
    ++ (h.version
        ∷ h.type
        ∷ (le16 h.flags
            ++ (h.source
                ++ (h.destination
                    ++ (h.session_id
                        ++ (le64 h.sequence ++ (le16 h.payload_length ++ le16 h.reserved)))))))

-- `memcpy(&header, packet, sizeof(header))`: the fields in their order, each behind the last.
pub header_of : List ℕ → Header
header_of packet =
    let at_source = drop 8 packet in
    let at_destination = drop 6 at_source in
    let at_session = drop 6 at_destination in
    let at_sequence = drop 16 at_session in
    record {
      magic = of_le32 packet;
      version = get_or packet 4 0;
      type = get_or packet 5 0;
      flags = of_le16 (drop 6 packet);
      source = take 6 at_source;
      destination = take 6 at_destination;
      session_id = take 16 at_session;
      sequence = of_le64 at_sequence;
      payload_length = of_le16 (drop 8 at_sequence);
      reserved = of_le16 (drop 10 at_sequence);
    }

-- What the code relies on in the PSA library: `hkdf` derives 32 bytes from salt, key and info;
-- `seal` and `open` are AES-256-GCM with key, nonce and associated data, the import of the key
-- included. `none` is an error status. Opening what was sealed with the same key, nonce and data
-- gives the plaintext, and the tag takes 16 bytes.
pub record Crypto : Type 0 where
  pub hkdf : List ℕ → List ℕ → List ℕ → Option (List ℕ)
  pub seal : List ℕ → List ℕ → List ℕ → List ℕ → Option (List ℕ)
  pub unseal : List ℕ → List ℕ → List ℕ → List ℕ → Option (List ℕ)
  pub length-seal :
      (key nonce aad plain sealed : List ℕ)
      → seal key nonce aad plain ≡ some sealed
      → length sealed ≡ length plain + 16
  pub unseal-seal :
      (key nonce aad plain sealed : List ℕ)
      → seal key nonce aad plain ≡ some sealed
      → unseal key nonce aad sealed ≡ some plain

-- "airlink-mesh-v1/"
abbrev info_prefix : List ℕ
info_prefix =
    97 ∷ 105 ∷ 114 ∷ 108 ∷ 105 ∷ 110 ∷ 107 ∷ 45 ∷ 109 ∷ 101 ∷ 115 ∷ 104 ∷ 45 ∷ 118 ∷ 49 ∷ 47 ∷ []

-- "airlink-mesh-v1/sender/", "airlink-mesh-v1/down" and "airlink-mesh-v1/up"
abbrev sender_prefix : List ℕ
sender_prefix = info_prefix ++ 115 ∷ 101 ∷ 110 ∷ 100 ∷ 101 ∷ 114 ∷ 47 ∷ []

abbrev down_info : List ℕ
down_info = info_prefix ++ 100 ∷ 111 ∷ 119 ∷ 110 ∷ []

abbrev up_info : List ℕ
up_info = info_prefix ++ 117 ∷ 112 ∷ []

-- `session_key`: `none` is the result false.
unfoldable pub session_key : Crypto → List ℕ → List ℕ → List ℕ → List ℕ → Bool → Option (List ℕ)
session_key c fleet_key network_id source session_id from_root =
    elim (c.hkdf network_id fleet_key (sender_prefix ++ source)) [
      | none ↦ none
      | some sender_key ↦ c.hkdf session_id sender_key (if from_root then down_info else up_info)
    ]

-- `nonce_for`: the stream's four bytes and the sequence number, most significant byte first.
pub nonce_for : Bool → ℕ → List ℕ
nonce_for from_root sequence =
    (if from_root then 0x52 ∷ 0x4f ∷ 0x4f ∷ 0x54 ∷ [] else 0x4e ∷ 0x4f ∷ 0x44 ∷ 0x45 ∷ [])
    ++ (sequence / 2 ^ 56 % 256
        ∷ sequence / 2 ^ 48 % 256
        ∷ sequence / 2 ^ 40 % 256
        ∷ sequence / 2 ^ 32 % 256
        ∷ sequence / 2 ^ 24 % 256
        ∷ sequence / 2 ^ 16 % 256
        ∷ sequence / 2 ^ 8 % 256
        ∷ sequence % 256
        ∷ [])
