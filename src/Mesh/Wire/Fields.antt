-- ===== src/Mesh/Wire/Fields.antt =====
-- Reading back a header that was written.
use air_link.Base.{ℕ, ◌^◌, ◌<◌, List, ◌++◌, ◌≡◌, refl, sym, ap, ◌∙◌, arith}
use air_link.Base.{
  length, take, drop, get_or, take-append, drop-append, append_assoc, length-append,
}
use air_link.Mesh.Replay.{Header}
use air_link.Mesh.Wire.{le16, le32, le64, of_le16, of_le32, of_le64, header_bytes, header_of}

-- The fields fit their widths.
pub record FitsWire (h : Header) : Type 0 where
  pub magic : h.magic < 2 ^ 32
  pub flags : h.flags < 65536
  pub source : length h.source ≡ 6
  pub destination : length h.destination ≡ 6
  pub session_id : length h.session_id ≡ 16
  pub sequence : h.sequence < 2 ^ 64
  pub payload_length : h.payload_length < 65536
  pub reserved : h.reserved < 65536

take_of_length : (n : ℕ) (xs ys : List ℕ) → length xs ≡ n → take n (xs ++ ys) ≡ xs
take_of_length n xs ys e = ap (λ k. take k (xs ++ ys)) (sym e) ∙ take-append xs ys

drop_of_length : (n : ℕ) (xs ys : List ℕ) → length xs ≡ n → drop n (xs ++ ys) ≡ ys
drop_of_length n xs ys e = ap (λ k. drop k (xs ++ ys)) (sym e) ∙ drop-append xs ys

of_le16-le16 : (n : ℕ) (rest : List ℕ) → n < 65536 → of_le16 (le16 n ++ rest) ≡ n
unfolding of_le16 le16
of_le16-le16 n rest h = omega arith

of_le32-le32 : (n : ℕ) (rest : List ℕ) → n < 2 ^ 32 → of_le32 (le32 n ++ rest) ≡ n
unfolding of_le32 le32
of_le32-le32 n rest h = omega arith

of_le64-le64 : (n : ℕ) (rest : List ℕ) → n < 2 ^ 64 → of_le64 (le64 n ++ rest) ≡ n
unfolding of_le64 le64 of_le32 le32
of_le64-le64 n rest h = omega arith

module _ (h : Header) (rest : List ℕ) (v : FitsWire h) where
  abbrev packet : List ℕ
  packet = header_bytes h ++ rest

  behind : List ℕ
  behind = (le64 h.sequence ++ (le16 h.payload_length ++ le16 h.reserved)) ++ rest

  at_source : drop 8 packet ≡ h.source ++ (h.destination ++ (h.session_id ++ behind))
  unfolding header_bytes le32 le16 behind
  at_source = simp append_assoc

  at_destination : drop 6 (drop 8 packet) ≡ h.destination ++ (h.session_id ++ behind)
  at_destination = ap (drop 6) at_source ∙ drop_of_length 6 h.source _ v.source

  at_session : drop 6 (drop 6 (drop 8 packet)) ≡ h.session_id ++ behind
  at_session = ap (drop 6) at_destination ∙ drop_of_length 6 h.destination _ v.destination

  at_sequence : drop 16 (drop 6 (drop 6 (drop 8 packet))) ≡ behind
  at_sequence = ap (drop 16) at_session ∙ drop_of_length 16 h.session_id _ v.session_id

  magic_back : of_le32 packet ≡ h.magic
  unfolding header_bytes le32 of_le32
  magic_back = omega (arith, v.magic)

  flags_back : of_le16 (drop 6 packet) ≡ h.flags
  unfolding header_bytes le32 le16 of_le16
  flags_back = omega (arith, v.flags)

  sequence_back : of_le64 behind ≡ h.sequence
  unfolding behind le64 le32 le16 of_le64 of_le32
  sequence_back = omega (arith, v.sequence)

  length_back : of_le16 (drop 8 behind) ≡ h.payload_length
  unfolding behind le64 le32 le16 of_le16
  length_back = omega (arith, v.payload_length)

  reserved_back : of_le16 (drop 10 behind) ≡ h.reserved
  unfolding behind le64 le32 le16 of_le16
  reserved_back = omega (arith, v.reserved)

  version_back : (get_or packet 4 0 ≡ h.version) × (get_or packet 5 0 ≡ h.type)
  unfolding header_bytes le32
  version_back = (refl, refl)

  -- A header whose fields fit their widths is read back as it was written, whatever follows it.
  pub header_of-header_bytes : header_of (header_bytes h ++ rest) ≡ h
  unfolding header_of
  header_of-header_bytes = λ i. record {
    magic = (magic_back) i;
    version = (version_back.0) i;
    type = (version_back.1) i;
    flags = (flags_back) i;
    source = (ap (take 6) at_source ∙ take_of_length 6 h.source _ v.source) i;
    destination = (ap (take 6) at_destination ∙ take_of_length 6 h.destination _ v.destination) i;
    session_id = (ap (take 16) at_session ∙ take_of_length 16 h.session_id _ v.session_id) i;
    sequence = (ap of_le64 at_sequence ∙ sequence_back) i;
    payload_length = (ap (λ l. of_le16 (drop 8 l)) at_sequence ∙ length_back) i;
    reserved = (ap (λ l. of_le16 (drop 10 l)) at_sequence ∙ reserved_back) i;
  }

  pub length-header_bytes : length (header_bytes h) ≡ 48
  unfolding header_bytes le64 le32 le16
  length-header_bytes = omega (
    arith,
    v.source,
    v.destination,
    v.session_id,
    length-append h.source,
    length-append h.destination,
    length-append h.session_id,
  )
