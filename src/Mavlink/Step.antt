-- ===== src/Mavlink/Step.antt =====
-- What `airlink_mavlink_parse_byte` does with one byte inside a frame.
use air_link.Base.{ℕ, suc, ◌+◌, ◌≤◌, ◌<◌, List, [], ◌∷◌, ◌++◌, ◌≡◌, refl, arith, inl, inr}
use air_link.Base.{
  Option, none, some, false, leb, Bool-cases, not, ◌≢◌, ◌&&◌, ◌==◌, length, set, take, take-set,
  get_or,
}
use air_link.Base.{get_or-take, length-append, bit_and, ap, sym, ◌∙◌, if◌then◌else◌}
use air_link.Mavlink.{Parser, Frame, store, expect, restart, finish_frame}
use air_link.Mavlink.{parse_byte, frame_of, max_frame_size}
use air_link.Mavlink.Bounds.{IsValid, parse_byte-IsValid}

-- The size of a frame by its first bytes: header, payload and checksum, and a signature if the
-- incompatibility flags of MAVLink 2 announce one. 0 while it is not yet known.
abbrev pub announced : List ℕ → ℕ
announced [] = 0
announced (start ∷ []) = 0
announced (start ∷ len ∷ []) = (if start == 0xfd then 12 else 8) + len
announced (start ∷ len ∷ flags ∷ _) =
    (if start == 0xfd then 12 else 8)
    + len
    + (if start == 0xfd && bit_and flags 1 == 1 then 13 else 0)

-- The parser has taken `taken`, and no more, of the current frame.
pub record Holds (p : Parser) (taken : List ℕ) : Type 0 where
  pub valid : IsValid p
  pub count : p.length ≡ length taken
  pub bytes : take (length taken) p.buffer ≡ taken
  pub size : p.expected ≡ announced taken

-- What one more byte does inside a frame.
stored_buffer :
    (p : Parser) (taken : List ℕ) (byte : ℕ)
    → Holds p taken
    → length taken < 280
    → take (suc (length taken)) (set p.buffer (length taken) byte) ≡ taken ++ byte ∷ []
stored_buffer p taken byte h lt =
    take-set p.buffer (length taken) byte (omega (arith, h.valid.size))
    ∙ ap (λ l. l ++ byte ∷ []) h.bytes

-- A byte already taken is still where it was after the next is stored.
kept_byte :
    (p : Parser) (taken : List ℕ) (byte i : ℕ)
    → Holds p taken
    → i < length taken
    → length taken < 280
    → get_or (set p.buffer p.length byte) i 0 ≡ get_or (taken ++ byte ∷ []) i 0
kept_byte p taken byte i h k lt =
    ap (λ n. get_or (set p.buffer n byte) i 0) h.count
    ∙ sym (get_or-take (set p.buffer (length taken) byte) (suc (length taken)) i 0 (omega arith))
    ∙ ap (λ l. get_or l i 0) (stored_buffer p taken byte h lt)

-- The parser with the byte stored, before it is known whether the frame is complete.
abbrev next : Parser → ℕ → Parser
next p byte = expect (store p byte) byte

length-next : (p : Parser) (byte : ℕ) → (next p byte).length ≡ p.length + 1
unfolding expect store
length-next p byte = ground arith

buffer-next : (p : Parser) (byte : ℕ) → (next p byte).buffer ≡ set p.buffer p.length byte
unfolding expect store
buffer-next p byte = ground arith

expected-next :
    (p : Parser) (a : ℕ) (more : List ℕ) (byte : ℕ)
    → Holds p (a ∷ more)
    → length (a ∷ more) < 280
    → (next p byte).expected ≡ announced (a ∷ more ++ byte ∷ [])
unfolding expect store
expected-next p a [] byte h lt =
    ground (arith, kept_byte p (a ∷ []) byte 0 h (omega arith) lt, h.count, h.size)
expected-next p a (b ∷ []) byte h lt =
    ground (arith, kept_byte p (a ∷ b ∷ []) byte 0 h (omega arith) lt, h.count, h.size)
expected-next p a (b ∷ c ∷ r) byte h lt = ground (arith, h.count, h.size)

parse_byte_inside :
    (p : Parser) (byte : ℕ)
    → 0 < p.length
    → p.length < 280
    → parse_byte p byte ≡ (
        if not ((next p byte).expected == 0) && (next p byte).length == (next p byte).expected
        then (restart (finish_frame (next p byte)).0, some (frame_of (next p byte)))
        else (next p byte, none))
unfolding parse_byte finish_frame
parse_byte_inside p byte lo hi = rw (busy, room)
  where
    busy : (p.length == 0) ≡ false
    busy = ground arith

    room : leb max_frame_size p.length ≡ false
    room = ground arith

-- What one more byte does to a parser that holds a started frame: it completes the frame exactly
-- when the announced size is reached, and is held otherwise.
abbrev pub Stepped : List ℕ → Parser → Option Frame → Type 0
Stepped taken p none = (length taken ≢ announced taken) × Holds p taken
Stepped taken p (some f) =
    (length taken ≡ announced taken)
    × IsValid p
    × (p.length ≡ 0)
    × (f.length ≡ length taken)
    × (take f.length f.bytes ≡ taken)

pub 8-le-announced : (a : ℕ) (more : List ℕ) (byte : ℕ) → 8 ≤ announced (a ∷ more ++ byte ∷ [])
8-le-announced a [] byte = ground arith
8-le-announced a (b ∷ []) byte = ground arith
8-le-announced a (b ∷ c ∷ r) byte = ground arith

pub step :
    (p : Parser) (a : ℕ) (more : List ℕ) (byte : ℕ)
    → byte < 256
    → Holds p (a ∷ more)
    → let (p', result) = parse_byte p byte in Stepped (a ∷ more ++ byte ∷ []) p' result
step p a more byte lt h =
    rw inside
      elim (Bool-cases
        (not ((next p byte).expected == 0) && (next p byte).length == (next p byte).expected)) [
          | inl done ↦ rw done (
            ground (arith, len, size),
            (rw (inside, done) at still),
            unfold restart in refl,
            unfold frame_of in len,
            unfold frame_of in ap (λ n. take n (next p byte).buffer) len ∙ bytes,
          )
          | inr open_frame ↦ rw open_frame (
            ground (arith, len, size, 8-le-announced a more byte),
            record {
              valid = rw (inside, open_frame) at still;
              count = len;
              bytes = bytes;
              size = size;
            },
          )
        ]
  where
    room : p.length < 280
    room = (parse_byte-IsValid p byte lt h.valid).1

    inside : parse_byte p byte ≡ (
        if not ((next p byte).expected == 0) && (next p byte).length == (next p byte).expected
        then (restart (finish_frame (next p byte)).0, some (frame_of (next p byte)))
        else (next p byte, none))
    inside = parse_byte_inside p byte (omega (arith, h.count)) room

    still : IsValid (parse_byte p byte).0
    still = (parse_byte-IsValid p byte lt h.valid).0

    len : (next p byte).length ≡ length (a ∷ more ++ byte ∷ [])
    len = omega (arith, length-next p byte, h.count, length-append more (byte ∷ []))

    size : (next p byte).expected ≡ announced (a ∷ more ++ byte ∷ [])
    size = expected-next p a more byte h (omega (arith, h.count))

    bytes : take (length (a ∷ more ++ byte ∷ [])) (next p byte).buffer ≡ a ∷ more ++ byte ∷ []
    bytes =
        let longer : length (a ∷ more ++ byte ∷ []) ≡ suc (length (a ∷ more)) =
          omega (arith, length-append more (byte ∷ [])) in
        ap (λ l. take (length (a ∷ more ++ byte ∷ [])) l)
          (buffer-next p byte ∙ ap (λ n. set p.buffer n byte) h.count)
        ∙ ap (λ n. take n (set p.buffer (length (a ∷ more)) byte)) longer
        ∙ stored_buffer p (a ∷ more) byte h (omega (arith, h.count))
