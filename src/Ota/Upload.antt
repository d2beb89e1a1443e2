-- ===== src/Ota/Upload.antt =====
-- components/airlink_ota/airlink_ota.c: an image sent over HTTP.
pub mod Ends
use air_link.Base.{
  ℕ, zero, suc, ◌+◌, ◌-◌, ◌*◌, List, [], ◌∷◌, Bool, true, false, Option, none, some,
}
use air_link.Base.{not, ◌&&◌, ◌||◌, ltb, leb, ◌==◌, if◌then◌else◌, length, bytes_eq}
use air_link.Ota.Stream.{Ota, Esp, Err, esp_ok, fail, invalid_arg, invalid_version, is_ok}
use air_link.Ota.Stream.{stream_abort, stream_begin, stream_write, stream_finish}

-- What the file reads of an `httpd_req_t`: the length of its content, 0 for one that is not
-- positive, and the headers as `httpd_req_get_hdr_value_str` gives them to buffers of their sizes.
pub record HttpRequest : Type 0 where
  pub content_len : ℕ
  pub hardware : Option (List ℕ)
  pub flash_bytes : Option (List ℕ)
  pub psram_bytes : Option (List ℕ)
  pub sha256 : Option (List ℕ)

-- `header_equals`
pub header_equals : Option (List ℕ) → List ℕ → Bool
header_equals none expected = false
header_equals (some value) expected = bytes_eq value expected

-- "airlink-c5-mesh-v1" and "8388608"
abbrev pub hardware_id : List ℕ
hardware_id =
    97 ∷ 105 ∷ 114 ∷ 108 ∷ 105 ∷ 110 ∷ 107 ∷ 45 ∷ 99 ∷ 53 ∷ 45 ∷ 109 ∷ 101 ∷ 115 ∷ 104 ∷ 45 ∷ 118
    ∷ 49 ∷ []

abbrev pub memory_bytes : List ℕ
memory_bytes = 56 ∷ 51 ∷ 56 ∷ 56 ∷ 54 ∷ 48 ∷ 56 ∷ []

-- `isxdigit`, with the digit's value.
pub hex_digit : ℕ → Option ℕ
hex_digit c =
    if leb 48 c && leb c 57
    then some (c - 48)
    else if leb 65 c && leb c 70
    then some (c - 55)
    else if leb 97 c && leb c 102
    then some (c - 87)
    else none

-- The byte of two digits, as "%2x" reads it.
pub hex_byte : Option ℕ → Option ℕ → Option ℕ
hex_byte (some high) (some low) = some (16 * high + low)
hex_byte _ _ = none

pub prepend : Option ℕ → Option (List ℕ) → Option (List ℕ)
prepend (some byte) (some bytes) = some (byte ∷ bytes)
prepend _ _ = none

-- The loop of `parse_sha256`.
pub hex_bytes : List ℕ → Option (List ℕ)
hex_bytes [] = some []
hex_bytes (c ∷ []) = none
hex_bytes (high ∷ low ∷ rest) = prepend (hex_byte (hex_digit high) (hex_digit low)) (hex_bytes rest)

-- `parse_sha256`
pub parse_sha256 : Option (List ℕ) → Option (List ℕ)
parse_sha256 none = none
parse_sha256 (some text) = if length text == 64 then hex_bytes text else none

-- What `httpd_req_recv` answers.
pub data Received : Type 0 where
  timeout failed : Received
  received : List ℕ → Received

-- How the loop ended, with what was still to come.
pub record Loop : Type 0 where
  pub state : Ota
  pub err : Err
  pub remaining : ℕ

-- `httpd_req_recv` by the number of its calls and the bytes that are wanted.
abbrev pub Recv : Type 0
Recv = ℕ → ℕ → Received

module _ (esp : Esp) (recv : Recv) where
  -- The loop of `airlink_ota_http_upload`; `none` is that the fuel ran out.
  pub receive_loop : ℕ → Ota → ℕ → ℕ → ℕ → Option Loop
  receive_loop zero s remaining timeouts calls = none
  receive_loop (suc fuel) s remaining timeouts calls =
      let wanted = if ltb remaining 2048 then remaining else 2048 in
      if remaining == 0
      then some (record { state = s; err = esp_ok; remaining = 0 })
      else elim (recv calls wanted) [
        | timeout ↦
            let again = receive_loop fuel s remaining (timeouts + 1) (calls + 1) in
            if ltb timeouts 5
            then again
            else some (record { state = s; err = fail; remaining = remaining })
        | failed ↦ some (record { state = s; err = fail; remaining = remaining })
        | received bytes ↦
            let (s', err) = stream_write esp s bytes in
            let more = receive_loop fuel s' (remaining - length bytes) 0 (calls + 1) in
            if is_ok err
            then more
            else some (record { state = s'; err = err; remaining = remaining })
      ]

  -- What follows on the loop.
  pub after_loop : Loop → Ota × Err
  after_loop l =
      if not (is_ok l.err) || not (l.remaining == 0)
      then (stream_abort l.state, if is_ok l.err then fail else l.err)
      else stream_finish esp l.state

  -- The part of `airlink_ota_http_upload` with the digest. Six rounds for each byte and six more
  -- are enough, as no more than five timeouts come in a row.
  pub upload_image : Ota → ℕ → List ℕ → Option (Ota × Err)
  upload_image s size sha256 =
      let (begun, err) = stream_begin esp s size sha256 none in
      if not (is_ok err)
      then some (begun, err)
      else elim (receive_loop (6 * size + 6) begun size 0 0) [
        | none ↦ none
        | some l ↦ some (after_loop l)
      ]

  -- `airlink_ota_http_upload`, `request` not NULL; `none` is that the fuel ran out.
  pub http_upload : Ota → HttpRequest → Option (Ota × Err)
  http_upload s request =
      if request.content_len == 0
      then some (s, invalid_arg)
      else if not (header_equals request.hardware hardware_id)
          || not (header_equals request.flash_bytes memory_bytes)
          || not (header_equals request.psram_bytes memory_bytes)
      then some (s, invalid_version)
      else elim (parse_sha256 request.sha256) [
        | none ↦ some (s, invalid_arg)
        | some sha256 ↦ upload_image s request.content_len sha256
      ]
