-- ===== src/MeshNode/AirOta/Tests.antt =====
-- An update of an air node in one chunk.
use air_link.Base.{List, [], ◌∷◌, ◌≡◌, refl, true, false, some, replicate, bytes_eq}
use air_link.Config.Strings.{characters}
use air_link.Ota.Marker.{begins, contains_marker, scan_blocks, partition_contains_marker}
use air_link.Ota.Stream.{
  Ota, is_ok, stream_remaining, version_refused, version_kept, begin_hash, begin_on, stream_begin,
  stream_write, description_err, verify_end, verify_image, digest_err, verify_written,
  stream_verify, stream_activate,
}
use air_link.Ota.Stream.Phases.{IsValid}
use air_link.Ota.Stream.Keeps.{stream_begin-IsValid, stream_write-IsValid}
use air_link.Ota.Stream.Booted.{stream_verify-IsValid}
use air_link.Ota.Stream.Runs.{at_start}
use air_link.Ota.Stream.Outcome.{BootChosen}
use air_link.Ota.Tests.{image, digest, good_esp}
use air_link.MeshNode.AirOta.{
  AirNode, Begin, OtaPacket, begin_packet, chunk_packet, commit_packet, abort_packet, no_update,
  popcount, window_expected, send_ack, begin_update, process_begin, write_slots, window_filled,
  chunk_stored, process_chunk, commit_state, commit_end, process_commit, process_ota,
}
use air_link.MeshNode.AirOta.Booted.{process_all, idle_node, process_ota-BootChosen, begin-Staged}

abbrev a_begin : Begin
a_begin = record {
  session = 9;
  image_size = 59;
  sha256 = digest;
  expected_version = 49 ∷ replicate 23 0;
  chunk_size = 1024;
  window_chunks = 32;
}

abbrev an_update : List OtaPacket
an_update =
    begin_packet a_begin true true
    ∷ chunk_packet (record { session = 9; chunk_index = 0; data_length = 59; payload = image })
    ∷ commit_packet 9 false
    ∷ []

restarts :
    (process_ota good_esp
      (process_all good_esp (idle_node good_esp true) an_update)
      (commit_packet 9 true)).1
    ≡ true
unfolding process_all process_ota process_begin begin_update send_ack process_chunk chunk_stored
    window_filled window_expected popcount write_slots process_commit commit_state commit_end
    stream_begin begin_on begin_hash version_refused version_kept stream_write stream_remaining
    stream_verify verify_written verify_image verify_end description_err digest_err stream_activate
    is_ok characters bytes_eq partition_contains_marker scan_blocks contains_marker begins
restarts = refl

process_ota-BootChosen_example :
    BootChosen good_esp
      (process_ota good_esp
        (process_all good_esp (idle_node good_esp true) an_update)
        (commit_packet 9 true)).0.ota.trace
process_ota-BootChosen_example =
    process_ota-BootChosen good_esp true an_update (commit_packet 9 true) restarts

-- The stream with a verified image.
abbrev begun : Ota
begun = (stream_begin good_esp at_start 59 digest (some (49 ∷ []))).0

abbrev written : Ota
written = (stream_write good_esp begun image).0

abbrev staged : Ota
staged = (stream_verify good_esp written).0

staged-IsValid : IsValid good_esp staged
staged-IsValid = stream_verify-IsValid good_esp written (
    stream_write-IsValid good_esp begun image (
      stream_begin-IsValid good_esp at_start 59 digest (some (49 ∷ []))
        (record { phase = refl; booted = tt })))

staged_verified : staged.verified ≡ true
unfolding stream_begin begin_on begin_hash version_refused version_kept stream_write
    stream_remaining stream_verify verify_written verify_image verify_end description_err digest_err
    is_ok bytes_eq partition_contains_marker scan_blocks contains_marker begins
staged_verified = refl

abbrev staged_node : AirNode
staged_node = record { air = no_update; approved = true; ota = staged; acks = [] }

abbrev refused_node : AirNode
refused_node =
    process_begin good_esp (process_ota good_esp staged_node abort_packet).0 a_begin true true

begin-Staged_example : (refused_node.ota ≡ staged) × (refused_node.air.active ≡ false)
begin-Staged_example =
    begin-Staged good_esp staged_node a_begin true true staged-IsValid staged_verified
