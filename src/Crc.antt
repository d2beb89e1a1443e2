-- ===== src/Crc.antt =====
-- components/airlink_core/airlink_crc.c: the CRC-32 that guards stored records and spots repeated
-- frames.
use air_link.Base.{ℕ, zero, suc, ◌-◌, ◌/◌, List, [], ◌∷◌, bit_and, bit_xor, ◌%◌, ◌^◌}

-- One turn of the loop over the bits. `-(crc & 1U)` is 0 or all ones.
pub crc_bit : ℕ → ℕ
crc_bit crc =
    let mask = (2 ^ 32 - bit_and crc 1) % 2 ^ 32 in bit_xor (crc / 2) (bit_and 0xedb8_8320 mask)

pub crc_bits : ℕ → ℕ → ℕ
crc_bits zero crc = crc
crc_bits (suc left) crc = crc_bits left (crc_bit crc)

-- The loop over the bytes.
pub crc_bytes : List ℕ → ℕ → ℕ
crc_bytes [] crc = crc
crc_bytes (byte ∷ rest) crc = crc_bytes rest (crc_bits 8 (bit_xor crc byte))

-- `airlink_crc32`: `~crc` of a 32-bit word.
unfoldable pub crc32 : List ℕ → ℕ
unfolding crc_bit crc_bits crc_bytes
crc32 bytes = 0xffff_ffff - crc_bytes bytes 0xffff_ffff
