-- ===== src/ProcessLock/Tests.antt =====
-- Locks of a process with the id 12, and of a later one with the same id.
use drv_thru.Base.{◌≡◌, ◌↔◌, refl, arith, true, false, none, some, ◌==◌, ◌++◌, if◌then◌else◌}
use drv_thru.Text.{Text, codes}
use drv_thru.ProcessLock.{
  Processes, process_start_time, current_owner_text, owner_is_live, lock_key_file,
}
use drv_thru.ProcessLock.Owners.{owner_is_live-current_owner_text}
use drv_thru.ProcessLock.Waiting.{settled, lock_key_file-settled}

abbrev started_at : Text → Text
started_at ticks =
    codes "12 (a) b) S 1 1 1 0 -1 4 5 0 0 0 1 1 0 0 20 0 1 0 " ++ ticks ++ codes " 99 88"

abbrev first : Processes
first pid = if pid == 12 then some (started_at (codes "500")) else none

abbrev later : Processes
later pid = if pid == 12 then some (started_at (codes "900")) else none

starts : process_start_time first 12 ≡ some (codes "500")
unfolding process_start_time
starts = refl

owner_is_live-current_owner_text_example :
    (owner_is_live later (current_owner_text first 12) ≡ true)
    ↔ (process_start_time later 12 ≡ some (codes "500"))
owner_is_live-current_owner_text_example =
    owner_is_live-current_owner_text first later 12 (codes "500") (omega arith) starts

gone : owner_is_live later (current_owner_text first 12) ≡ false
unfolding owner_is_live current_owner_text
gone = refl

lock_key_file-settled_example :
    lock_key_file later (codes "7:1") (λ i lock. lock) 3 (some (codes "12:500"))
    ≡ settled later (codes "7:1") (some (codes "12:500"))
lock_key_file-settled_example =
    lock_key_file-settled later (codes "7:1") (λ i lock. lock) 1 (some (codes "12:500"))
      (λ i held. refl)

taken : settled later (codes "7:1") (some (codes "12:500")) ≡ (some (codes "7:1"), true)
unfolding owner_is_live
taken = refl
