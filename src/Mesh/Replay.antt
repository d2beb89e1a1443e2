-- ===== src/Mesh/Replay.antt =====
-- components/airlink_mesh/airlink_mesh_codec.c: `replay_accept`, which lets each packet of a
-- session in once.
pub mod Once
pub mod Session
pub mod Retired
pub mod Tests
use air_link.Base.{ℕ, zero, suc, ◌+◌, ◌-◌, ◌*◌, ◌%◌, ◌^◌, List, [], ◌∷◌, Bool, true, false}
use air_link.Base.{not, ◌&&◌, ◌||◌, ltb, leb, ◌==◌, if◌then◌else◌, bytes_eq, set, replicate}
use air_link.Base.{bit_and, bit_or, take}

-- `airlink_mesh_wire_header_t`
pub record Header : Type 0 where
  pub magic : ℕ
  pub version : ℕ
  pub type : ℕ
  pub flags : ℕ
  pub source : List ℕ
  pub destination : List ℕ
  pub session_id : List ℕ
  pub sequence : ℕ
  pub payload_length : ℕ
  pub reserved : ℕ

-- `airlink_mesh_replay_window_t`
pub record Window : Type 0 where
  pub initialized : Bool
  pub source : List ℕ
  pub session_id : List ℕ
  pub highest_sequence : ℕ
  pub seen_bitmap : ℕ
  pub retired_session_ids : List (List ℕ)
  pub retired_session_count : ℕ
  pub retired_session_next : ℕ

-- `(airlink_mesh_replay_window_t){0}`
abbrev pub empty_window : Window
empty_window = record {
  initialized = false;
  source = replicate 6 0;
  session_id = replicate 16 0;
  highest_sequence = 0;
  seen_bitmap = 0;
  retired_session_ids = replicate 3 (replicate 16 0);
  retired_session_count = 0;
  retired_session_next = 0;
}

-- The loop over the retired sessions, the first `count` of the three.
pub is_retired : List (List ℕ) → List ℕ → Bool
is_retired [] session = false
is_retired (old ∷ rest) session = bytes_eq old session || is_retired rest session

-- The session that is left goes to the next of the three places.
pub retire : Window → Window
retire window =
    if window.initialized
    then record window {
      retired_session_ids =
          set window.retired_session_ids window.retired_session_next window.session_id;
      retired_session_count =
          if ltb window.retired_session_count 3
          then window.retired_session_count + 1
          else window.retired_session_count;
      retired_session_next = (window.retired_session_next + 1) % 3;
    }
    else window

-- The branch of a new session.
pub enter_session : Window → Header → Window × Bool
enter_session window header =
    if is_retired (take window.retired_session_count window.retired_session_ids) header.session_id
    then (window, false)
    else (
      record (retire window) {
        initialized = true;
        source = header.source;
        session_id = header.session_id;
        highest_sequence = header.sequence;
        seen_bitmap = 1;
      },
      true,
    )

-- The map of 64 bits for a highest number that is larger by `distance`.
pub shifted : ℕ → ℕ → ℕ
shifted bitmap distance = if leb 64 distance then 1 else bit_or (bitmap * 2 ^ distance % 2 ^ 64) 1

-- The rest of the function, within a session.
pub accept_in_session : Window → ℕ → Window × Bool
accept_in_session window sequence =
    if ltb window.highest_sequence sequence
    then (
      record window {
        seen_bitmap = shifted window.seen_bitmap (sequence - window.highest_sequence);
        highest_sequence = sequence;
      },
      true,
    )
    else let distance = window.highest_sequence - sequence in
      if leb 64 distance || not (bit_and window.seen_bitmap (2 ^ distance) == 0)
      then (window, false)
      else (record window { seen_bitmap = bit_or window.seen_bitmap (2 ^ distance) }, true)

-- `replay_accept`
pub replay_accept : Window → Header → Window × Bool
replay_accept window header =
    let new_sender = not window.initialized || not (bytes_eq window.source header.source) in
    let current = if new_sender then empty_window else window in
    let new_session =
      not current.initialized || not (bytes_eq current.session_id header.session_id) in
    if new_session then enter_session current header else accept_in_session current header.sequence
