-- ===== src/Ota/Stream/Phases.antt =====
-- What the calls so far are in each phase of the stream.
use air_link.Base.{ℕ, ◌+◌, ◌≤◌, List, [], ◌∷◌, ◌≡◌, Bool, true, false, Option, some, length}
use air_link.Base.{◌⊎◌}
use air_link.Ota.Marker.{partition_contains_marker}
use air_link.Ota.Stream.{
  Ota, Esp, Trace, Partition, Description, esp_ok, requested, ota_begin, hash_setup,
}
use air_link.Ota.Stream.{
  hash_update, ota_write, hash_finish, hash_abort, ota_end, ota_abort, description, set_boot,
  version_kept,
}

-- The calls that write the pieces of an image, the last piece first.
abbrev pub pieces : List (List ℕ) → Trace → Trace
pieces [] base = base
pieces (piece ∷ rest) base = ota_write piece esp_ok ∷ hash_update piece true ∷ pieces rest base

abbrev pub total : List (List ℕ) → ℕ
total [] = 0
total (piece ∷ rest) = length piece + total rest

-- The calls that begin a stream.
abbrev pub opening : Partition → ℕ → List ℕ → Option (List ℕ) → Trace → Trace
opening p size sha256 version earlier =
    hash_setup true ∷ ota_begin p size esp_ok ∷ requested size sha256 version ∷ earlier

module _ (esp : Esp) where
  -- These calls wrote a whole image to the partition and checked it: its pieces have the requested
  -- size together, its digest is the requested one, the project is AirLink's, the version is the
  -- requested one if there was one, and the partition holds the hardware marker.
  pub record Checked (p : Partition) (trace : Trace) : Type 0 where
    pub written : List (List ℕ)
    pub size : ℕ
    pub sha256 : List ℕ
    pub version : Option (List ℕ)
    pub earlier : Trace
    pub app : Description
    pub fits : size ≤ p.size
    pub calls :
        trace
        ≡ description p (some app)
          ∷ ota_end esp_ok
          ∷ hash_finish (some sha256)
          ∷ pieces written (opening p size sha256 version earlier)
    pub whole : total written ≡ size
    pub project : app.project_name ≡ 97 ∷ 105 ∷ 114 ∷ 108 ∷ 105 ∷ 110 ∷ 107 ∷ []
    pub same_version : (version_kept version ≡ []) ⊎ (app.version ≡ version_kept version)
    pub marker : partition_contains_marker (esp.reads trace p) size ≡ true

  -- The image is on its way.
  pub record Streaming (s : Ota) : Type 0 where
    pub partition : Partition
    pub written : List (List ℕ)
    pub version : Option (List ℕ)
    pub earlier : Trace
    pub target : s.target ≡ some partition
    pub fits : s.image_size ≤ partition.size
    pub calls :
        s.trace ≡ pieces written (opening partition s.image_size s.expected_sha256 version earlier)
    pub count : total written ≡ s.written
    pub bound : s.written ≤ s.image_size
    pub wanted : s.expected_version ≡ version_kept version

  -- The image is written and checked.
  pub record Staged (s : Ota) : Type 0 where
    pub partition : Partition
    pub target : s.target ≡ some partition
    pub checked : Checked partition s.trace

  -- By `active` and `verified`.
  abbrev pub Phase : Bool → Bool → Ota → Type 0
  Phase false false s = s.in_progress ≡ false
  Phase true false s = Streaming s × (s.in_progress ≡ true)
  Phase false true s = Staged s × (s.in_progress ≡ true)
  Phase true true s = ⊥

  -- Every choice of a partition to boot follows on the calls that wrote and checked its image.
  abbrev pub Booted : Trace → Type 0
  Booted [] = Unit
  Booted (set_boot p err ∷ rest) = Checked p rest × Booted rest
  Booted (requested size sha256 version ∷ rest) = Booted rest
  Booted (ota_begin p size err ∷ rest) = Booted rest
  Booted (hash_setup ready ∷ rest) = Booted rest
  Booted (hash_update bytes done ∷ rest) = Booted rest
  Booted (ota_write bytes err ∷ rest) = Booted rest
  Booted (hash_finish digest ∷ rest) = Booted rest
  Booted (hash_abort ∷ rest) = Booted rest
  Booted (ota_end err ∷ rest) = Booted rest
  Booted (ota_abort ∷ rest) = Booted rest
  Booted (description p app ∷ rest) = Booted rest

  pub record IsValid (s : Ota) : Type 0 where
    pub phase : Phase s.active s.verified s
    pub booted : Booted s.trace
