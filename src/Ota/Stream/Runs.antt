-- ===== src/Ota/Stream/Runs.antt =====
-- Every sequence of operations on the stream.
use air_link.Base.{ℕ, List, [], ◌∷◌, ◌≡◌, refl, Bool, true, false, ◌||◌}
use air_link.Base.{Option, none}
use air_link.Ota.Stream.{Ota, Esp}
use air_link.Ota.Stream.{stream_abort, stream_begin, stream_write}
use air_link.Ota.Stream.{stream_verify, stream_activate, stream_finish}
use air_link.Ota.Stream.Phases.{Phase, Booted, IsValid}
use air_link.Ota.Stream.Keeps.{stream_abort-IsValid, stream_begin-IsValid, stream_write-IsValid}
use air_link.Ota.Stream.Booted.{
  stream_verify-IsValid, stream_activate-IsValid, stream_finish-IsValid,
}

-- An operation on the stream.
pub data Operation : Type 0 where
  do_begin : ℕ → List ℕ → Option (List ℕ) → Operation
  do_write : List ℕ → Operation
  do_verify do_activate do_finish do_abort : Operation

-- `s_stream` and `s_in_progress` after the start.
abbrev pub at_start : Ota
at_start = record {
  active = false;
  verified = false;
  target = none;
  handle = 0;
  image_size = 0;
  written = 0;
  expected_sha256 = [];
  expected_version = [];
  in_progress = false;
  led = none;
  trace = [];
}

module _ (esp : Esp) where
  pub perform : Ota → Operation → Ota
  perform s (do_begin size sha256 version) = (stream_begin esp s size sha256 version).0
  perform s (do_write bytes) = (stream_write esp s bytes).0
  perform s do_verify = (stream_verify esp s).0
  perform s do_activate = (stream_activate esp s).0
  perform s do_finish = (stream_finish esp s).0
  perform s do_abort = stream_abort s

  pub perform_all : Ota → List Operation → Ota
  perform_all s [] = s
  perform_all s (operation ∷ rest) = perform_all (perform s operation) rest

  perform-IsValid :
      (s : Ota) (operation : Operation) → IsValid esp s → IsValid esp (perform s operation)
  unfolding perform
  perform-IsValid s (do_begin size sha256 version) v =
      stream_begin-IsValid esp s size sha256 version v
  perform-IsValid s (do_write bytes) v = stream_write-IsValid esp s bytes v
  perform-IsValid s do_verify v = stream_verify-IsValid esp s v
  perform-IsValid s do_activate v = stream_activate-IsValid esp s v
  perform-IsValid s do_finish v = stream_finish-IsValid esp s v
  perform-IsValid s do_abort v = stream_abort-IsValid esp s v

  perform_from-IsValid :
      (operations : List Operation) (s : Ota)
      → IsValid esp s
      → IsValid esp (perform_all s operations)
  unfolding perform_all
  perform_from-IsValid [] s v = v
  perform_from-IsValid (operation ∷ rest) s v =
      perform_from-IsValid rest _ (perform-IsValid s operation v)

  -- Whatever operations follow on the start, in whatever order, and whatever the calls of the
  -- system answer: each partition that is chosen to boot is chosen directly after calls that wrote
  -- an image of the requested size to it piece by piece, and found its digest to be the requested
  -- one, its project AirLink's, its version the requested one if there was one, and the hardware
  -- marker in it; and a stream is in progress exactly while one is active or verified.
  pub perform_all-IsValid :
      (operations : List Operation)
      → let s = perform_all at_start operations in
        Booted esp s.trace × (s.in_progress ≡ (s.active || s.verified))
  perform_all-IsValid operations =
      let v = perform_from-IsValid operations at_start start in (v.booted, busy _ v)
    where
      start : IsValid esp at_start
      start = record { phase = refl; booted = tt }

      busy : (s : Ota) → IsValid esp s → s.in_progress ≡ (s.active || s.verified)
      busy s v = by_phase s s.active s.verified v.phase
        where
          by_phase : (s : Ota) (a w : Bool) → Phase esp a w s → s.in_progress ≡ (a || w)
          by_phase s false false i = i
          by_phase s true false (_, i) = i
          by_phase s false true (_, i) = i
          by_phase s true true i = absurd i
