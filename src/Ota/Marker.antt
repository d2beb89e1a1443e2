-- ===== src/Ota/Marker.antt =====
-- components/airlink_ota/airlink_ota.c: the search for the hardware marker in the flash.
pub mod Search
use air_link.Base.{ℕ, zero, suc, ◌+◌, ◌-◌, List, [], ◌∷◌, Bool, true, false, Option, none, some}
use air_link.Base.{◌||◌, ltb, if◌then◌else◌, length, take, bytes_eq}

-- `AIRLINK_IMAGE_HARDWARE_MARKER`: "AIRLINK_HW=airlink-c5-mesh-v1;FLASH=8388608;PSRAM=8388608".
abbrev pub hardware_marker : List ℕ
hardware_marker =
    65 ∷ 73 ∷ 82 ∷ 76 ∷ 73 ∷ 78 ∷ 75 ∷ 95 ∷ 72 ∷ 87 ∷ 61 ∷ 97 ∷ 105 ∷ 114 ∷ 108 ∷ 105 ∷ 110 ∷ 107
    ∷ 45 ∷ 99 ∷ 53 ∷ 45 ∷ 109 ∷ 101 ∷ 115 ∷ 104 ∷ 45 ∷ 118 ∷ 49 ∷ 59 ∷ 70 ∷ 76 ∷ 65 ∷ 83 ∷ 72 ∷ 61
    ∷ 56 ∷ 51 ∷ 56 ∷ 56 ∷ 54 ∷ 48 ∷ 56 ∷ 59 ∷ 80 ∷ 83 ∷ 82 ∷ 65 ∷ 77 ∷ 61 ∷ 56 ∷ 51 ∷ 56 ∷ 56 ∷ 54
    ∷ 48 ∷ 56 ∷ []

-- `sizeof(buffer)`
abbrev pub buffer_size : ℕ
buffer_size = 1024

-- `memcmp` of the marker with the bytes from one place on; less bytes than the marker has are not
-- equal to it.
unfoldable pub begins : List ℕ → List ℕ → Bool
begins marker bytes = bytes_eq (take (length marker) bytes) marker

-- The loop over the places of the buffer. The loop stops where the marker does not fit any more;
-- behind that place no comparison succeeds.
unfoldable pub contains_marker : List ℕ → List ℕ → Bool
contains_marker marker [] = false
contains_marker marker (byte ∷ rest) = begins marker (byte ∷ rest) || contains_marker marker rest

-- The loop over the blocks from `offset` on. `read` is `esp_partition_read`, of so many bytes at an
-- offset; `none` is an error. Each round moves on by `step`.
unfoldable pub scan_blocks : (ℕ → ℕ → Option (List ℕ)) → List ℕ → ℕ → ℕ → ℕ → Bool
scan_blocks read marker size zero offset = false
scan_blocks read marker size (suc fuel) offset =
    let count = if ltb (size - offset) buffer_size then size - offset else buffer_size in
    let later = scan_blocks read marker size fuel (offset + (buffer_size - length marker + 1)) in
    if ltb offset size
    then elim (read offset count) [
      | none ↦ false
      | some buffer ↦
          if contains_marker marker buffer
          then true
          else if ltb count buffer_size
          then false
          else later
    ]
    else false

-- `partition_contains_marker`, `partition` not NULL. Each round moves on by at least one byte, so
-- the size is enough fuel.
unfoldable pub partition_contains_marker : (ℕ → ℕ → Option (List ℕ)) → ℕ → Bool
partition_contains_marker read image_size =
    if ltb image_size (length hardware_marker)
    then false
    else scan_blocks read hardware_marker image_size image_size 0
