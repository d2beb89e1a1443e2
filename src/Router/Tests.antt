-- ===== src/Router/Tests.antt =====
-- The router at concrete calls.
use air_link.Base.{List, [], ◌∷◌, ◌++◌, ◌≡◌, refl, ℕ, true, All, arith}
use air_link.Base.{◌*◌}
use air_link.Router.State.{Router, Sent, Endpoint, vehicle, gcs, mavlink, transparent}
use air_link.Router.Slots.{init, register, find_endpoint, find_from, take_free}
use air_link.Router.Forward.{Send}
use air_link.Router.Ingest.{ingest}
use air_link.Router.Follows.{seats, Legit, SameFc}
use air_link.Router.Sides.{ingest_crosses, ingest_latch, ingest_pinned}
use air_link.Router.Safe.{IsSafe}
use air_link.Router.Runs.{Call, do_register, do_set_mode, do_ingest, do_unregister, run, run-IsSafe}
use air_link.Router.Chunks.{Cut, send_chunks_lem}
use air_link.Router.Registry.{Registered, Distinct, register_lem}

abbrev autopilot : Endpoint
autopilot = record { id = 1; direction = vehicle }

abbrev station : Endpoint
station = record { id = 16; direction = gcs }

abbrev wired : Router
wired = (register (register (init mavlink) autopilot).0 station).0

abbrev pinned : Router
pinned = record wired { fc_identity_known = true; fc_system_id = 1 }

abbrev clock : ℕ → ℕ
clock = λ n. 1000 * n

abbrev all_sent : Send
all_sent = λ sent call. true

abbrev bytes : List ℕ
bytes = 254 ∷ 0 ∷ 7 ∷ 1 ∷ 1 ∷ 200 ∷ 17 ∷ 34 ∷ []

ingest_crosses_example :
    (new : List Sent) × ((ingest clock all_sent wired 1 bytes).0.sent ≡ new ++ wired.sent)
    × All (Legit (seats wired) 0) new
    × (seats (ingest clock all_sent wired 1 bytes).0 ≡ seats wired)
unfolding init register find_endpoint find_from take_free
ingest_crosses_example = ingest_crosses clock all_sent wired 1 bytes 0 refl

ingest_latch_example : SameFc wired (ingest clock all_sent wired 16 bytes).0
unfolding init register find_endpoint find_from take_free
ingest_latch_example = ingest_latch clock all_sent wired 16 bytes 1 refl (λ e. ground (arith, e))

ingest_pinned_example :
    ((ingest clock all_sent pinned 16 bytes).0.fc_identity_known ≡ true)
    × ((ingest clock all_sent pinned 16 bytes).0.fc_system_id ≡ 1)
unfolding init register find_endpoint find_from take_free
ingest_pinned_example = ingest_pinned clock all_sent pinned 16 bytes 1 refl refl

abbrev calls : List Call
calls =
    do_register autopilot
    ∷ do_register station
    ∷ do_ingest 1 (254 ∷ 9 ∷ [])
    ∷ do_set_mode transparent
    ∷ do_unregister 1
    ∷ []

run-IsSafe_example : IsSafe (run clock all_sent (init mavlink) calls)
run-IsSafe_example = run-IsSafe clock all_sent mavlink calls ((omega arith, (omega arith, tt)), tt)

send_chunks_lem_example : Cut all_sent 0 bytes 8
send_chunks_lem_example = send_chunks_lem all_sent 0 bytes

init-Distinct : Distinct (init mavlink).endpoints
unfolding init
init-Distinct = ground arith

register_lem_example :
    Registered
      (register (init mavlink) station).1
      (init mavlink)
      station
      (register (init mavlink) station).0
register_lem_example = register_lem (init mavlink) station init-Distinct
