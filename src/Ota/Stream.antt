-- ===== src/Ota/Stream.antt =====
-- components/airlink_ota/airlink_ota.c: the stream that writes an image, checks it and makes it
-- the one to boot. The calls of ESP-IDF and PSA are recorded with what they answered.
pub mod Phases
pub mod Keeps
pub mod Booted
pub mod Runs
pub mod Outcome
pub mod Started
use air_link.Base.{ℕ, ◌+◌, ◌-◌, List, [], ◌∷◌, Bool, true, false, Option, none, some}
use air_link.Base.{not, ◌&&◌, ◌||◌, ltb, leb, ◌==◌, if◌then◌else◌, length, replicate, bytes_eq}
use air_link.Ota.Marker.{partition_contains_marker}

-- `esp_err_t`, as far as the file names it; `other` is an error of a call.
pub data Err : Type 0 where
  esp_ok fail invalid_arg invalid_size invalid_state invalid_crc invalid_version : Err
  other : ℕ → Err

unfoldable pub is_ok : Err → Bool
is_ok esp_ok = true
is_ok _ = false

-- `airlink_led_set`, as far as the file uses it.
pub data Led : Type 0 where
  led_ota led_error : Led

-- `esp_partition_t`, by a number, with its size.
pub record Partition : Type 0 where
  pub id : ℕ
  pub size : ℕ

-- `esp_app_desc_t`
pub record Description : Type 0 where
  pub project_name : List ℕ
  pub version : List ℕ

-- A call of the file with its answer, and an accepted request to begin.
pub data Call : Type 0 where
  requested : ℕ → List ℕ → Option (List ℕ) → Call
  ota_begin : Partition → ℕ → Err → Call
  hash_setup : Bool → Call
  hash_update : List ℕ → Bool → Call
  ota_write : List ℕ → Err → Call
  hash_finish : Option (List ℕ) → Call
  hash_abort : Call
  ota_end : Err → Call
  ota_abort : Call
  description : Partition → Option Description → Call
  set_boot : Partition → Err → Call

-- The calls so far, last first. What a call answers is a function of those before it.
abbrev pub Trace : Type 0
Trace = List Call

pub record Esp : Type 0 where
  pub next_partition : Trace → Option Partition
  -- With the handle that it leaves, 0 for none.
  pub begins : Trace → Partition → ℕ → Err × ℕ
  pub sets_up : Trace → Bool
  pub updates : Trace → List ℕ → Bool
  pub writes : Trace → List ℕ → Err
  pub finishes : Trace → Option (List ℕ)
  pub ends : Trace → Err
  pub describes : Trace → Partition → Option Description
  pub reads : Trace → Partition → ℕ → ℕ → Option (List ℕ)
  pub boots : Trace → Partition → Err

-- `ota_stream_t` and `s_in_progress`, with the calls and the last state of the LED. The operation
-- `sha` is known by its calls.
pub record Ota : Type 0 where
  pub active : Bool
  pub verified : Bool
  pub target : Option Partition
  pub handle : ℕ
  pub image_size : ℕ
  pub written : ℕ
  pub expected_sha256 : List ℕ
  pub expected_version : List ℕ
  pub in_progress : Bool
  pub led : Option Led
  pub trace : Trace

-- A call is recorded.
abbrev pub called : Ota → Call → Ota
called s call = record s { trace = call ∷ s.trace }

-- `memset(&s_stream, 0, sizeof(s_stream))` and `atomic_store(&s_in_progress, false)`
abbrev pub cleared : Ota → Ota
cleared s = record s {
  active = false;
  verified = false;
  target = none;
  handle = 0;
  image_size = 0;
  written = 0;
  expected_sha256 = replicate 32 0;
  expected_version = [];
  in_progress = false;
}

-- `airlink_led_set`
abbrev pub lit : Ota → Led → Ota
lit s led = record s { led = some led }

-- `airlink_ota_stream_remaining`
unfoldable pub stream_remaining : Ota → ℕ
stream_remaining s = if s.active && ltb s.written s.image_size then s.image_size - s.written else 0

-- `airlink_ota_stream_abort`
unfoldable pub stream_abort : Ota → Ota
stream_abort s =
    if not s.active && not s.verified
    then s
    else lit (cleared (if s.active then called (called s hash_abort) ota_abort else s)) led_error

-- The test of `airlink_ota_stream_begin_versioned` on the version, `none` for NULL.
unfoldable pub version_refused : Option (List ℕ) → Bool
version_refused none = false
version_refused (some version) = length version == 0 || leb 32 (length version)

-- What is kept of the version.
unfoldable pub version_kept : Option (List ℕ) → List ℕ
version_kept none = []
version_kept (some version) = version

module _ (esp : Esp) where
  -- A failure behind `esp_ota_begin`.
  unfoldable pub begin_failed : Ota → Err → Ota × Err
  begin_failed s err = (cleared (if s.handle == 0 then s else called s ota_abort), err)

  -- `psa_hash_setup` and what follows.
  unfoldable pub begin_hash : Ota → Ota × Err
  begin_hash s =
      let ready = esp.sets_up s.trace in
      let s' = called s (hash_setup ready) in
      if ready then (lit (record s' { active = true }) led_ota, esp_ok) else begin_failed s' fail

  -- From `memset` on, with the target.
  unfoldable pub begin_on : Ota → Partition → ℕ → List ℕ → Option (List ℕ) → Ota × Err
  begin_on s target image_size sha256 version =
      let (err, handle) =
        esp.begins (requested image_size sha256 version ∷ s.trace) target image_size in
      let s' = record (cleared s) {
        target = some target;
        image_size = image_size;
        expected_sha256 = sha256;
        expected_version = version_kept version;
        handle = handle;
        in_progress = true;
        trace = ota_begin target image_size err ∷ requested image_size sha256 version ∷ s.trace;
      } in
      if is_ok err then begin_hash s' else begin_failed s' err

  -- `airlink_ota_stream_begin_versioned`, `expected_sha256` not NULL; with `none` it is
  -- `airlink_ota_stream_begin`.
  unfoldable pub stream_begin : Ota → ℕ → List ℕ → Option (List ℕ) → Ota × Err
  stream_begin s image_size sha256 version =
      if image_size == 0 || s.active || s.verified || version_refused version
      then (s, invalid_arg)
      else elim (esp.next_partition s.trace) [
        | none ↦ (s, invalid_size)
        | some target ↦
            if ltb target.size image_size
            then (s, invalid_size)
            else if s.in_progress
            then (s, invalid_state)
            else begin_on s target image_size sha256 version
      ]

  -- `airlink_ota_stream_write`, `data` not NULL.
  unfoldable pub stream_write : Ota → List ℕ → Ota × Err
  stream_write s bytes =
      let updated = esp.updates s.trace bytes in
      let hashed = called s (hash_update bytes updated) in
      let err = esp.writes hashed.trace bytes in
      let done = called hashed (ota_write bytes err) in
      if not s.active || length bytes == 0 || ltb (stream_remaining s) (length bytes)
      then (s, invalid_arg)
      else if not updated
      then (stream_abort hashed, fail)
      else if not (is_ok err)
      then (stream_abort done, err)
      else (record done { written = done.written + length bytes }, esp_ok)

  -- The tests of `airlink_ota_stream_verify` on what `esp_ota_get_partition_description` gives,
  -- whose error is `other 0`. "airlink" is 97 105 114 108 105 110 107.
  unfoldable pub description_err : List ℕ → Option Description → Err
  description_err expected none = other 0
  description_err expected (some d) =
      if not (bytes_eq d.project_name (97 ∷ 105 ∷ 114 ∷ 108 ∷ 105 ∷ 110 ∷ 107 ∷ []))
      then invalid_version
      else if not (length expected == 0) && not (bytes_eq d.version expected)
      then invalid_version
      else esp_ok

  -- The end of `airlink_ota_stream_verify`.
  unfoldable pub verify_end : Ota → Err → Ota × Err
  verify_end s err =
      if is_ok err
      then (record s { active = false; verified = true; handle = 0 }, esp_ok)
      else (lit (cleared s) led_error, err)

  -- The tests on the partition, which was written to.
  unfoldable pub verify_image : Ota → Partition → Ota × Err
  verify_image s target =
      let d = esp.describes s.trace target in
      let s' = called s (description target d) in
      let err = description_err s.expected_version d in
      verify_end s' (
        if is_ok err && not (partition_contains_marker (esp.reads s'.trace target) s.image_size)
        then invalid_version
        else err)

  -- The digest against the expected one.
  unfoldable pub digest_err : List ℕ → Option (List ℕ) → Err
  digest_err expected none = fail
  digest_err expected (some digest) = if bytes_eq digest expected then esp_ok else invalid_crc

  -- `esp_ota_end` or `esp_ota_abort`, and the tests behind them.
  unfoldable pub verify_written : Ota → Partition → Err → Ota × Err
  verify_written s target err =
      let ended = esp.ends s.trace in
      let s' = called s (ota_end ended) in
      if not (is_ok err)
      then verify_end (called s ota_abort) err
      else if not (is_ok ended)
      then verify_end s' ended
      else verify_image s' target

  -- `airlink_ota_stream_verify`; an active stream has a target.
  unfoldable pub stream_verify : Ota → Ota × Err
  stream_verify s = elim (s.target) [
    | none ↦ (s, invalid_state)
    | some target ↦
        let digest = esp.finishes s.trace in
        if not s.active || not (s.written == s.image_size)
        then (s, invalid_state)
        else verify_written (called s (hash_finish digest)) target
            (digest_err s.expected_sha256 digest)
  ]

  -- `airlink_ota_stream_activate`
  unfoldable pub stream_activate : Ota → Ota × Err
  stream_activate s = elim (s.target) [
    | none ↦ (s, invalid_state)
    | some target ↦
        let err = esp.boots s.trace target in
        let s' = cleared (called s (set_boot target err)) in
        if not s.verified
        then (s, invalid_state)
        else (if is_ok err then s' else lit s' led_error, err)
  ]

  -- `airlink_ota_stream_finish`
  pub stream_finish : Ota → Ota × Err
  stream_finish s =
      let (verified, err) = stream_verify s in
      if is_ok err then stream_activate verified else (verified, err)
