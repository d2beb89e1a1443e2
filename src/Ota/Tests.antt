-- ===== src/Ota/Tests.antt =====
-- Tests of the updater, and its theorems at concrete images.
use air_link.Base.{
  ℕ, ◌+◌, ◌≤◌, List, [], ◌∷◌, ◌≡◌, refl, arith, true, ◌&&◌, ◌||◌, if-both, Option, some,
}
use air_link.Base.{ltb, if◌then◌else◌, length, take, drop, replicate}
use mathlib.Core.Path.{subst}
use air_link.Ota.Marker.{hardware_marker, contains_marker, partition_contains_marker}
use air_link.Ota.Marker.Search.{partition_contains_marker-eq}
use air_link.Ota.Stream.{Ota, Esp, Err, esp_ok}
use air_link.Ota.Stream.Phases.{Booted, IsValid}
use air_link.Ota.Stream.Outcome.{Over}
use air_link.Ota.Stream.Runs.{
  Operation, do_begin, do_write, do_finish, do_abort, at_start, perform_all, perform_all-IsValid,
}
use air_link.Ota.Upload.{
  HttpRequest, Received, failed, received, Recv, hardware_id, memory_bytes, http_upload,
}
use air_link.Ota.Upload.Ends.{http_upload-Over}

abbrev pub image : List ℕ
image = 7 ∷ 8 ∷ hardware_marker

abbrev image_reads : ℕ → ℕ → Option (List ℕ)
image_reads offset count = some (take count (drop offset image))

partition_contains_marker-eq_example :
    partition_contains_marker image_reads 59 ≡ contains_marker hardware_marker image
partition_contains_marker-eq_example =
    partition_contains_marker-eq image_reads image (λ _ _ _. refl)

abbrev pub digest : List ℕ
digest = replicate 32 187

-- Every call succeeds.
abbrev pub good_esp : Esp
good_esp = record {
  next_partition = λ _. some (record { id = 1; size = 4096 });
  begins = λ _ _ _. (esp_ok, 1);
  sets_up = λ _. true;
  updates = λ _ _. true;
  writes = λ _ _. esp_ok;
  finishes = λ _. some digest;
  ends = λ _. esp_ok;
  describes = λ _ _.
      some
        (record { project_name = 97 ∷ 105 ∷ 114 ∷ 108 ∷ 105 ∷ 110 ∷ 107 ∷ []; version = 49 ∷ [] });
  reads = λ _ _. image_reads;
  boots = λ _ _. esp_ok;
}

abbrev an_update : List Operation
an_update =
    do_begin 59 digest (some (49 ∷ []))
    ∷ do_write (7 ∷ 8 ∷ [])
    ∷ do_write hardware_marker
    ∷ do_finish
    ∷ do_abort
    ∷ []

perform_all-IsValid_example :
    Booted good_esp (perform_all good_esp at_start an_update).trace
    × ((perform_all good_esp at_start an_update).in_progress ≡ (
        (perform_all good_esp at_start an_update).active
        || (perform_all good_esp at_start an_update).verified))
perform_all-IsValid_example = perform_all-IsValid good_esp an_update

-- 64 characters "bb"
abbrev a_request : HttpRequest
a_request = record {
  content_len = 59;
  hardware = some hardware_id;
  flash_bytes = some memory_bytes;
  psram_bytes = some memory_bytes;
  sha256 = some (replicate 64 98);
}

-- All that is wanted, as far as the image goes.
abbrev answer : List ℕ → ℕ → Received
answer bytes wanted =
    if ltb 0 (length bytes) && ltb (length bytes) (wanted + 1) then received bytes else failed

abbrev good_recv : Recv
good_recv n wanted = answer (take wanted image) wanted

answer_gives :
    (given : List ℕ) (wanted : ℕ) (bytes : List ℕ)
    → answer given wanted ≡ received bytes
    → (1 ≤ length bytes) × (length bytes ≤ wanted)
answer_gives given wanted bytes =
    if-both (λ r. r ≡ received bytes → (1 ≤ length bytes) × (length bytes ≤ wanted))
      (ltb 0 (length given) && ltb (length given) (wanted + 1)) _ _
      (λ fits e.
        let same : given ≡ bytes = cc in
        subst (λ b. (1 ≤ length b) × (length b ≤ wanted)) same (ground (arith, fits)))
      (λ _ e. absurd (cc))

good_recv_gives :
    (n wanted : ℕ) (bytes : List ℕ)
    → good_recv n wanted ≡ received bytes
    → (1 ≤ length bytes) × (length bytes ≤ wanted)
good_recv_gives n wanted bytes = answer_gives (take wanted image) wanted bytes

at_start-IsValid : IsValid good_esp at_start
at_start-IsValid = record { phase = refl; booted = tt }

http_upload-Over_example :
    (r : Ota × Err) × (http_upload good_esp good_recv at_start a_request ≡ some r) × Over good_esp r
http_upload-Over_example =
    http_upload-Over good_esp good_recv good_recv_gives at_start a_request at_start-IsValid refl
