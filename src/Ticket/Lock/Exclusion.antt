-- ===== src/Ticket/Lock/Exclusion.antt =====
-- crates/drv-thru/src/ticket.rs: when the lock directory excludes.
use drv_thru.Base.{ℕ, ◌≡◌, refl, ap, Bool, true, ◌&&◌, List, [], ◌∷◌, All, and_parts}
use drv_thru.ProcessLock.{Processes}
use drv_thru.Ticket.Lock.{holds, lock_step, LockSystem, unlocked, Move, move, run}
use drv_thru.Ticket.Lock.Steps.{sees, Runs, owns, Excludes, Fits-Excludes, step-Fits}

-- Every look of the run reads an owner file with a text in it.
unfoldable pub calm : Processes → List Move → LockSystem → Bool
unfolding lock_step
calm processes [] s = true
calm processes (m ∷ moves) s =
    sees m.works (s.stage m.pid) s.dir && calm processes moves (move processes m s)

unlocked-Excludes : (processes : Processes) → Excludes processes unlocked
unlocked-Excludes processes = record {
  alone = λ p q h k. cc;
  made = λ p h. cc;
  live = tt;
  waits = λ p. refl;
}

run-Excludes :
    (processes : Processes) (moves : List Move) (s : LockSystem)
    → All (Runs processes) moves
    → calm processes moves s ≡ true
    → Excludes processes s
    → Excludes processes (run processes moves s)
unfolding run calm
run-Excludes processes [] s runs c v = v
run-Excludes processes (m ∷ moves) s (r, runs) c v =
    let (seen, later) = and_parts _ _ c in
    run-Excludes processes moves (move processes m s) runs later (
      Fits-Excludes processes s m.pid _ _ v
        (step-Fits processes s v m r (s.stage m.pid) s.dir m.works refl refl seen))

-- From no lock, over any calls of processes that run and of a file system that may fail, in any order:
-- if every process that looks at the lock of another reads an owner file that is not empty, no two have
-- the lock.
pub run-alone :
    (processes : Processes) (moves : List Move) (p q : ℕ)
    → All (Runs processes) moves
    → calm processes moves unlocked ≡ true
    → (run processes moves unlocked).stage p ≡ holds
    → (run processes moves unlocked).stage q ≡ holds
    → p ≡ q
run-alone processes moves p q runs c hp hq =
    (run-Excludes processes moves unlocked runs c (unlocked-Excludes processes)).alone p q
      (ap owns hp) (ap owns hq)
