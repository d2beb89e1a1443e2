-- ===== src/Mesh/Codec/Tests.antt =====
-- The codec at concrete packets.
use air_link.Base.{ℕ, ◌+◌, ◌-◌, List, [], ◌∷◌, ◌++◌, ◌≡◌, refl, ap, ◌∙◌, arith, false}
use air_link.Base.{some, length, take, take-append, replicate, length-append}
use air_link.Mesh.Replay.Tests.{
  mac, session, after_five, after_six, packet, sent_header, six_accepted,
}
use air_link.Mesh.Wire.{Crypto, header_bytes, header_of, session_key}
use air_link.Mesh.Wire.Fields.{header_of-header_bytes}
use air_link.Mesh.Codec.{Context, decode_ok, next_header, encode, decode_ex}
use air_link.Mesh.Codec.RoundTrip.{decode_ex-encode}

header_of-header_bytes_example : header_of (header_bytes (packet 3) ++ 9 ∷ []) ≡ packet 3
header_of-header_bytes_example = header_of-header_bytes (packet 3) (9 ∷ []) (record {
  magic = omega arith;
  flags = omega arith;
  source = refl;
  destination = refl;
  session_id = refl;
  sequence = omega arith;
  payload_length = omega arith;
  reserved = omega arith;
})

-- Cryptography that hides nothing, with a tag of zeros.
abbrev tag : List ℕ
tag = replicate 16 0

abbrev sealed : List ℕ → List ℕ
sealed plain = plain ++ tag

abbrev unsealed : List ℕ → List ℕ
unsealed bytes = take (length bytes - 16) bytes

length-sealed : (plain : List ℕ) → length (sealed plain) ≡ length plain + 16
length-sealed plain = length-append plain tag

unsealed-sealed : (plain : List ℕ) → unsealed (sealed plain) ≡ plain
unsealed-sealed plain =
    let room : length (sealed plain) - 16 ≡ length plain = omega (arith, length-sealed plain) in
    ap (λ n. take n (sealed plain)) room ∙ take-append plain tag

length-sealed_of :
    (plain bytes : List ℕ) → some (sealed plain) ≡ some bytes → length bytes ≡ length plain + 16
length-sealed_of plain bytes e = ground (arith, e, length-sealed plain)

unsealed-sealed_of :
    (plain bytes : List ℕ) → some (sealed plain) ≡ some bytes → some (unsealed bytes) ≡ some plain
unsealed-sealed_of plain bytes e = ground (arith, e, unsealed-sealed plain)

abbrev open_crypto : Crypto
open_crypto = record {
  hkdf = λ salt key info. some (salt ++ key ++ info);
  seal = λ key nonce aad plain. some (sealed plain);
  unseal = λ key nonce aad bytes. some (unsealed bytes);
  length-seal = λ key nonce aad plain bytes e. length-sealed_of plain bytes e;
  unseal-seal = λ key nonce aad plain bytes e. unsealed-sealed_of plain bytes e;
}

abbrev node : Context
node = record {
  fleet_key = replicate 32 3;
  network_id = mac;
  local_mac = mac;
  session_id = session;
  next_sequence = 6;
  from_root = false;
}

abbrev payload : List ℕ
payload = 1 ∷ 2 ∷ []

abbrev sent_packet : List ℕ
sent_packet = header_bytes sent_header ++ sealed payload

made : (encode open_crypto node 3 2 mac payload 1456).1 ≡ some sent_packet
unfolding encode next_header session_key
made = refl

decode_ex-encode_example :
    decode_ex open_crypto (replicate 32 3) mac sent_packet after_five
    ≡ (after_six, decode_ok, some (record { header = sent_header; payload = payload }))
unfolding next_header
decode_ex-encode_example =
    decode_ex-encode open_crypto node 3 2 mac payload 1456 sent_packet after_five after_six
      (record { mac = refl; session = refl; sequence = omega arith }) refl refl made six_accepted
