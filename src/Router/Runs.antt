-- ===== src/Router/Runs.antt =====
-- The memory safety of every sequence of calls of the router's interface.
use air_link.Base.{ℕ, List, [], ◌∷◌, length-replicate, arith}
use air_link.Mavlink.Framing.{AllBytes}
use air_link.Router.State.{Router, Endpoint, RouteMode, empty_slot, Dedup, Slot}
use air_link.Router.Slots.{register, unregister, set_mode, init}
use air_link.Router.Forward.{Send}
use air_link.Router.Ingest.{ingest}
use air_link.Router.Safe.{
  IsSafe, register-IsSafe, unregister-IsSafe, set_mode-IsSafe, replicate-All,
}
use air_link.Router.Bounded.{ingest-IsSafe}

-- A call of the router's interface that changes its state.
pub data Call : Type 0 where
  do_register : Endpoint → Call
  do_unregister : ℕ → Call
  do_set_mode : RouteMode → Call
  do_ingest : ℕ → List ℕ → Call

module _ (clock : ℕ → ℕ) (send : Send) where
  -- A sequence of calls; only bytes are ingested.
  unfoldable pub run : Router → List Call → Router
  run r [] = r
  run r (do_register e ∷ calls) = run (register r e).0 calls
  run r (do_unregister id ∷ calls) = run (unregister r id) calls
  run r (do_set_mode mode ∷ calls) = run (set_mode r mode) calls
  run r (do_ingest id bytes ∷ calls) = run (ingest clock send r id bytes).0 calls

abbrev pub OnlyBytes : List Call → Type 0
OnlyBytes [] = Unit
OnlyBytes (do_ingest id bytes ∷ calls) = AllBytes bytes × OnlyBytes calls
OnlyBytes (do_register e ∷ calls) = OnlyBytes calls
OnlyBytes (do_unregister id ∷ calls) = OnlyBytes calls
OnlyBytes (do_set_mode mode ∷ calls) = OnlyBytes calls

init-IsSafe : (mode : RouteMode) → IsSafe (init mode)
unfolding init
init-IsSafe mode = record {
  slots = length-replicate {A = Slot} 16 empty_slot;
  parsers = replicate-All 16;
  ring = length-replicate {A = Dedup} 32 (record { crc = 0; time_us = 0 });
  cursor = omega arith;
}

module _ (clock : ℕ → ℕ) (send : Send) where
  run_from-IsSafe :
      (calls : List Call) (r : Router)
      → OnlyBytes calls
      → IsSafe r
      → IsSafe (run clock send r calls)
  unfolding run
  run_from-IsSafe [] r all v = v
  run_from-IsSafe (do_register e ∷ calls) r all v =
      run_from-IsSafe calls _ all (register-IsSafe r v e)
  run_from-IsSafe (do_unregister id ∷ calls) r all v =
      run_from-IsSafe calls _ all (unregister-IsSafe r v id)
  run_from-IsSafe (do_set_mode mode ∷ calls) r all v =
      run_from-IsSafe calls _ all (set_mode-IsSafe r mode v)
  run_from-IsSafe (do_ingest id bytes ∷ calls) r (here, all) v =
      run_from-IsSafe calls _ all (ingest-IsSafe clock send r id bytes here v)

  -- From `airlink_router_init` on, whatever calls follow in whatever order and whatever bytes they
  -- bring, every parser's buffer has 280 bytes and a length below the announced size, and the ring
  -- of checksums keeps its 32 entries with the cursor inside.
  pub run-IsSafe :
      (mode : RouteMode) (calls : List Call)
      → OnlyBytes calls
      → IsSafe (run clock send (init mode) calls)
  run-IsSafe mode calls all = run_from-IsSafe calls (init mode) all (init-IsSafe mode)
