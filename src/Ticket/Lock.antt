-- ===== src/Ticket/Lock.antt =====
-- crates/drv-thru/src/ticket.rs: the lock directory of the ticket store, which processes take, judge and
-- leave by calls of the file system, in any order. A write of a file is two of them, one that makes it
-- empty and one that fills it; a removal takes the whole directory or leaves it. Files are known by
-- their names: one that is open to be filled is the one that the directory has under its name then.
pub mod Steps
pub mod Exclusion
pub mod Races
mod Tests
use drv_thru.Base.{
  ℕ, Bool, true, false, ◌&&◌, List, [], ◌∷◌, Option, none, some, ◌==◌, if◌then◌else◌,
}
use drv_thru.Text.{Text, to_digits}
use drv_thru.ProcessLock.{Processes, current_owner_text, owner_is_live}

-- The directory: not there, or with its files.
pub record LockFiles : Type 0 where
  pub pid : Option Text
  pub owner : Option Text

abbrev pub LockDir : Type 0
LockDir = Option LockFiles

-- The call that a process makes next: of `create_ticket_store_lock`, of the end of a `TicketFileLock`
-- (`holds`), or of `remove_stale_ticket_store_lock`. `fails` has no lock and has given up.
pub data LockStage : Type 0 where
  tries makes_pid fills_pid makes_owner fills_owner cleans fails holds looks looks_pid removes :
      LockStage

-- The flag of each call says whether the file system does it; a failure changes nothing.
abbrev pub create_dir : Bool → LockDir → LockStage × LockDir
create_dir works (some files) = (looks, some files)
create_dir true none = (makes_pid, some (record { pid = none; owner = none }))
create_dir false none = (fails, none)

-- `fs::write` of the file `pid`: the open that creates or empties it, then the text. Text for a file
-- that is gone goes nowhere.
abbrev pub make_pid : Bool → LockDir → LockStage × LockDir
make_pid works none = (cleans, none)
make_pid true (some files) = (fills_pid, some (record files { pid = some [] }))
make_pid false (some files) = (cleans, some files)

abbrev pub fill_pid : Bool → Text → LockDir → LockStage × LockDir
fill_pid true text none = (makes_owner, none)
fill_pid true text (some files) = (makes_owner, some (record files { pid = some text }))
fill_pid false text dir = (cleans, dir)

-- `fs::write` of the file `owner`.
abbrev pub make_owner : Bool → LockDir → LockStage × LockDir
make_owner works none = (cleans, none)
make_owner true (some files) = (fills_owner, some (record files { owner = some [] }))
make_owner false (some files) = (cleans, some files)

abbrev pub fill_owner : Bool → Text → LockDir → LockStage × LockDir
fill_owner true text none = (holds, none)
fill_owner true text (some files) = (holds, some (record files { owner = some text }))
fill_owner false text dir = (cleans, dir)

abbrev pub remove_dir : Bool → LockDir → LockDir
remove_dir true dir = none
remove_dir false dir = dir

abbrev pub judged : Processes → Text → LockStage
judged processes owner_text = if owner_is_live processes owner_text then tries else removes

abbrev pub found_owner : Processes → Option Text → LockStage
found_owner processes none = looks_pid
found_owner processes (some owner_text) = judged processes owner_text

-- A read that fails counts as a file that is not there.
abbrev pub read_owner : Processes → Bool → LockDir → LockStage
read_owner processes true (some files) = found_owner processes files.owner
read_owner processes works dir = looks_pid

-- With `unwrap_or_default`.
abbrev pub found_pid : Processes → Option Text → LockStage
found_pid processes none = judged processes []
found_pid processes (some owner_text) = judged processes owner_text

abbrev pub read_pid : Processes → Bool → LockDir → LockStage
read_pid processes true (some files) = found_pid processes files.pid
read_pid processes works dir = judged processes []

-- One call of a process. After `fails` and after the end of its lock it may ask for the lock again.
unfoldable pub lock_step : Processes → ℕ → Bool → LockStage → LockDir → LockStage × LockDir
unfolding owner_is_live current_owner_text to_digits
lock_step processes pid works tries dir = create_dir works dir
lock_step processes pid works makes_pid dir = make_pid works dir
lock_step processes pid works fills_pid dir = fill_pid works (to_digits pid) dir
lock_step processes pid works makes_owner dir = make_owner works dir
lock_step processes pid works fills_owner dir =
    fill_owner works (current_owner_text processes pid) dir
lock_step processes pid works cleans dir = (fails, remove_dir works dir)
lock_step processes pid works fails dir = (tries, dir)
lock_step processes pid works holds dir = (tries, remove_dir works dir)
lock_step processes pid works looks dir = (read_owner processes works dir, dir)
lock_step processes pid works looks_pid dir = (read_pid processes works dir, dir)
lock_step processes pid works removes dir = (tries, remove_dir works dir)

-- The directory and the stages of all processes.
pub record LockSystem : Type 0 where
  pub dir : LockDir
  pub stage : ℕ → LockStage

abbrev pub unlocked : LockSystem
unlocked = record { dir = none; stage = λ pid. tries }

pub record Move : Type 0 where
  pub pid : ℕ
  pub works : Bool

abbrev pub update : (ℕ → LockStage) → ℕ → LockStage → ℕ → LockStage
update stage pid next other = if pid == other then next else stage other

abbrev pub move : Processes → Move → LockSystem → LockSystem
move processes m s =
    let (next, dir) = lock_step processes m.pid m.works (s.stage m.pid) s.dir in
    record { dir = dir; stage = update s.stage m.pid next }

unfoldable pub run : Processes → List Move → LockSystem → LockSystem
unfolding lock_step
run processes [] s = s
run processes (m ∷ moves) s = run processes moves (move processes m s)
