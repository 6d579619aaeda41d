-- ===== src/Ticket/Lock/Tests.antt =====
-- The lock directory between the processes 1 and 2.
use drv_thru.Base.{ℕ, ◌≡◌, refl, arith, ◌++◌, Bool, true, false, List, some}
use drv_thru.Text.{codes}
use drv_thru.ProcessLock.{Processes, process_start_time, owner_is_live}
use drv_thru.Ticket.Lock.{holds, unlocked, run}
use drv_thru.Ticket.Lock.Steps.{Runs}
use drv_thru.Ticket.Lock.Exclusion.{calm, run-alone}
use drv_thru.Ticket.Lock.Races.{turns, times, race_at_start, race_at_end, race-both}

abbrev running : Processes
running pid = some (codes "7 (drv-thru) S 1 1 1 0 -1 4 5 0 0 0 1 1 0 0 20 0 1 0 500 99")

starts : (pid : ℕ) → process_start_time running pid ≡ some (codes "500")
unfolding process_start_time
starts pid = refl

one-Runs : Runs running (record { pid = 1; works = true })
one-Runs = (codes "500", omega arith, starts 1)

two-Runs : Runs running (record { pid = 2; works = true })
two-Runs = (codes "500", omega arith, starts 2)

-- The second looks at the lock of the first, gets it after that and has it at the end.
abbrev takes_over : List Bool
takes_over = times 5 true ++ times 2 false ++ times 1 true ++ times 5 false

taken_over : calm running (turns 1 2 takes_over) unlocked ≡ true
unfolding calm owner_is_live
taken_over = refl

second_holds : (run running (turns 1 2 takes_over) unlocked).stage 2 ≡ holds
unfolding run owner_is_live
second_holds = refl

run-alone_example : ◌≡◌ {A = ℕ} 2 2
run-alone_example =
    run-alone running (turns 1 2 takes_over) 2 2
      (
        one-Runs,
        (
          one-Runs,
          (
            one-Runs,
            (
              one-Runs,
              (
                one-Runs,
                (
                  two-Runs,
                  (
                    two-Runs,
                    (one-Runs, (two-Runs, (two-Runs, (two-Runs, (two-Runs, (two-Runs, tt)))))),
                  ),
                ),
              ),
            ),
          ),
        ),
      )
      taken_over second_holds second_holds

race-both_example :
    ((run running (turns 1 2 race_at_start) unlocked).stage 1 ≡ holds)
    × ((run running (turns 1 2 race_at_start) unlocked).stage 2 ≡ holds)
    × ((run running (turns 1 2 race_at_end) unlocked).stage 1 ≡ holds)
    × ((run running (turns 1 2 race_at_end) unlocked).stage 2 ≡ holds)
race-both_example = race-both running 1 2 (λ e. absurd (omega arith))
