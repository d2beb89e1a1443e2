-- ===== src/Mavlink/Bounds.antt =====
-- The buffer bounds of `airlink_mavlink_parse_byte`.
use air_link.Base.{ℕ, ◌≤◌, ◌<◌, ◌≡◌, refl, arith, ◌⊎◌, inl}
use air_link.Base.{length, length-set, length-replicate}
use air_link.Mavlink.{Parser, u32_max, store, expect, restart, increment_error, finish_frame}
use air_link.Mavlink.{parse_byte, fresh}

-- Between frames, behind a start byte, or inside a frame whose length is known.
abbrev pub InFrame : ℕ → ℕ → Type 0
InFrame len expected =
    ((len ≤ 1) × (expected ≡ 0))
    ⊎ ((len ≡ 2) × (8 ≤ expected) × (expected ≤ 267))
    ⊎ ((3 ≤ len) × (len < expected) × (expected ≤ 280))

-- The representation invariant of `airlink_mavlink_parser_t`.
pub record IsValid (p : Parser) : Type 0 where
  pub size : length p.buffer ≡ 280
  pub counted : p.errors ≤ u32_max
  pub position : InFrame p.length p.expected

pub fresh-IsValid : IsValid fresh
fresh-IsValid = record {
  size = length-replicate {A = ℕ} 280 0;
  counted = omega arith;
  position = inl (omega arith, refl);
}

increment_error-le : (p : Parser) → p.errors ≤ u32_max → (increment_error p).errors ≤ u32_max
unfolding increment_error
increment_error-le p h = ground arith

-- From a valid state and a byte, the parser's state stays valid, and the byte is written inside
-- the buffer: the guard on a full buffer never holds.
pub parse_byte-IsValid :
    (p : Parser) (byte : ℕ)
    → byte < 256
    → IsValid p
    → IsValid (parse_byte p byte).0 × (p.length < 280)
unfolding parse_byte store expect restart finish_frame increment_error
parse_byte-IsValid p byte h v = (
  record {
    size = ground (arith, length-set p.buffer p.length byte);
    counted = ground arith;
    position = ground arith;
  },
  ground arith,
)
