-- ===== src/Mavlink/Tests.antt =====
-- The parser at concrete bytes.
use air_link.Base.{List, [], ◌∷◌, ◌≡◌, refl, ℕ, ◌<◌, inl, arith, some, ◌↔◌, get_elem?}
use air_link.Mavlink.{parse_byte, fresh}
use air_link.Mavlink.Table.{crc_extras, crc_extra_for}
use air_link.Mavlink.Bounds.{IsValid, fresh-IsValid, parse_byte-IsValid}
use air_link.Mavlink.Framing.{parse_all, Delivered, parse_all-frame}
use air_link.Mavlink.Search.{crc_extra_for_iff}

-- A MAVLink 1 frame with an empty payload.
abbrev short_frame : List ℕ
short_frame = 254 ∷ 0 ∷ 7 ∷ 1 ∷ 1 ∷ 200 ∷ 17 ∷ 34 ∷ []

parse_byte-IsValid_example : IsValid (parse_byte fresh 253).0 × (0 < 280)
parse_byte-IsValid_example = parse_byte-IsValid fresh 253 (omega arith) fresh-IsValid

parse_all-frame_example : Delivered short_frame (parse_all fresh short_frame)
parse_all-frame_example =
    parse_all-frame fresh short_frame fresh-IsValid refl
      (
        omega arith,
        (
          omega arith,
          (
            omega arith,
            (omega arith, (omega arith, (omega arith, (omega arith, (omega arith, tt))))),
          ),
        ),
      )
      (record { starts = inl refl; complete = refl })

crc_extra_for_iff_example :
    (crc_extra_for 0 ≡ some 50) ↔ ((i : ℕ) × (get_elem? crc_extras i ≡ some (0, 50)))
crc_extra_for_iff_example = crc_extra_for_iff 0 50
