-- ===== src/Server/Status/Tests.antt =====
-- crates/drv-thru/src/server/status.rs: runs of the registry at concrete calls.
use drv_thru.Base.{ℕ, ◌+◌, ◌%◌, ◌^◌, ◌≡◌, refl, true, false, List, [], ◌∷◌, ◌++◌, none, some}
use drv_thru.Text.{codes}
use drv_thru.Server.Status.{
  StatusRegistry, Env, success, failed, new, enqueue, request_name, unknown_request, initial,
}
use drv_thru.Server.Status.Calls.{Call, enqueues, starts, phases, finishes, beats, apply, run}
use drv_thru.Server.Status.Board.{board, moves, clock}
use drv_thru.Server.Status.Shape.{AllConsistent, run-AllConsistent}
use drv_thru.Server.Status.Refinement.{apply-moves, enqueue-lost}

abbrev at : ℕ → Env
at now = record { now = some now; write_ok = true }

abbrev unwritten : ℕ → Env
unwritten now = record { now = some now; write_ok = false }

abbrev begun : StatusRegistry
begun = record {
  state = initial (codes "server") 1 1 5;
  file = some (initial (codes "server") 1 1 5).snapshot;
}

new-begun : new (at 5) (codes "server") 1 1 ≡ some begun
unfolding new
new-begun = refl

abbrev calls : List Call
calls =
    enqueues (at 6) (codes "client:a") (codes "a")
    ∷ enqueues (at 7) (codes "ticket:b") (codes "b")
    ∷ starts (at 8) (codes "build-1")
    ∷ phases (unwritten 9) (codes "build-1") (codes "building")
    ∷ finishes (at 10) (codes "build-1") success none
    ∷ finishes (at 11) (codes "build-2") failed (some (codes "failed"))
    ∷ beats (at 12)
    ∷ []

-- The history keeps the last build alone.
one_recent :
    board (run calls begun).state
    ≡ record { seq = 2; queue = []; active = []; recent = codes "build-2" ∷ []; limit = 1 }
unfolding run
one_recent = refl

run-AllConsistent_example : AllConsistent (run calls begun)
run-AllConsistent_example = run-AllConsistent (at 5) (codes "server") 1 1 begun calls new-begun

clock_8 : (clock (starts (at 8) (codes "build-1"))).now ≡ some 8
unfolding clock
clock_8 = refl

apply-moves_example :
    board (apply (starts (at 8) (codes "build-1")) begun).state
    ≡ moves (starts (at 8) (codes "build-1")) (board begun.state)
apply-moves_example = apply-moves (starts (at 8) (codes "build-1")) begun 8 clock_8

enqueue-lost_example :
    ((enqueue (unwritten 6) begun (codes "client:a") (codes "a")).1 ≡ unknown_request)
    × ((board (enqueue (unwritten 6) begun (codes "client:a") (codes "a")).0.state).queue
        ≡ (board begun.state).queue
          ++ (request_name ((begun.state.next_request_seq + 1) % 2 ^ 64) ∷ []))
enqueue-lost_example = enqueue-lost (unwritten 6) begun (codes "client:a") (codes "a") 6 refl refl
