-- ===== src/ProcessLock.antt =====
-- crates/drv-thru/src/process_lock.rs, and the lock of a key file of keys.rs, on Linux. A symbolic link
-- holds the text of its owner.
pub mod Owners
pub mod Waiting
mod Tests
use drv_thru.Base.{
  ℕ, zero, suc, Bool, true, false, List, [], ◌∷◌, ◌++◌, Option, none, some, drop, if◌then◌else◌,
}
use drv_thru.Text.{
  Text, codes, trim, split_once, starts_with, split_whitespace, to_digits, parse_unsigned, text_eq,
}

-- The processes that run: the text of `/proc/<pid>/stat`.
abbrev pub Processes : Type 0
Processes = ℕ → Option Text

pub record LockOwner : Type 0 where
  pub pid : ℕ
  pub start_time : Option Text

-- What follows the last `) `: the name of a program may have this in it.
unfoldable pub after_comm : Text → Option Text
unfolding starts_with
after_comm [] = none
after_comm (c ∷ s) = elim (after_comm s) [
  | some rest ↦ some rest
  | none ↦ if starts_with (codes ") ") (c ∷ s) then some (drop 2 (c ∷ s)) else none
]

-- `Iterator::nth`.
unfoldable pub nth : ℕ → List Text → Option Text
nth n [] = none
nth zero (word ∷ words) = some word
nth (suc n) (word ∷ words) = nth n words

abbrev pub start_field : Option Text → Option Text
start_field none = none
start_field (some fields) = nth 19 (split_whitespace fields)

abbrev pub start_of_stat : Option Text → Option Text
start_of_stat none = none
start_of_stat (some stat) = start_field (after_comm stat)

unfoldable pub process_start_time : Processes → ℕ → Option Text
unfolding after_comm nth split_whitespace
process_start_time processes pid = start_of_stat (processes pid)

abbrev pub owner_text : ℕ → Option Text → Text
owner_text pid none = to_digits pid
owner_text pid (some start_time) = to_digits pid ++ b':' ∷ start_time

unfoldable pub current_owner_text : Processes → ℕ → Text
unfolding process_start_time to_digits
current_owner_text processes pid = owner_text pid (process_start_time processes pid)

abbrev pub owner_of : Option ℕ → Option Text → Option LockOwner
owner_of none start_time = none
owner_of (some pid) start_time = some (record { pid = pid; start_time = start_time })

abbrev pub parse_parts : Text → Option (Text × Text) → Option LockOwner
parse_parts text none = owner_of (parse_unsigned 32 text) none
parse_parts text (some (pid, start_time)) = owner_of (parse_unsigned 32 pid) (some start_time)

unfoldable pub parse_owner : Text → Option LockOwner
unfolding trim split_once parse_unsigned
parse_owner text = parse_parts (trim text) (split_once b':' (trim text))

abbrev pub same_start : Option Text → Option Text → Bool
same_start start_time none = false
same_start none (some current) = true
same_start (some start_time) (some current) = text_eq start_time current

abbrev pub lives : Processes → Option LockOwner → Bool
lives processes none = false
lives processes (some owner) = same_start owner.start_time (process_start_time processes owner.pid)

unfoldable pub owner_is_live : Processes → Text → Bool
unfolding parse_owner process_start_time text_eq
owner_is_live processes text = lives processes (parse_owner text)

-- The lock of a key file: not there, or with its owner.
abbrev pub KeyLock : Type 0
KeyLock = Option Text

-- `create_key_file_lock`: whether the link was made.
unfoldable pub create_key_file_lock : Text → KeyLock → KeyLock × Bool
create_key_file_lock owner none = (some owner, true)
create_key_file_lock owner (some other) = (some other, false)

unfoldable pub remove_stale_key_file_lock : Processes → KeyLock → KeyLock
unfolding owner_is_live
remove_stale_key_file_lock processes none = none
remove_stale_key_file_lock processes (some owner) =
    if owner_is_live processes owner then some owner else none

abbrev pub wait_on : KeyLock × Bool → (KeyLock → KeyLock × Bool) → KeyLock × Bool
wait_on (lock, true) next = (lock, true)
wait_on (lock, false) next = next lock

-- The loop of `lock_key_file` on a number of rounds, without a failure of the file system; `others` is
-- what other processes do with the lock during the wait of a round.
unfoldable pub lock_key_file :
    Processes → Text → (ℕ → KeyLock → KeyLock) → ℕ → KeyLock → KeyLock × Bool
unfolding create_key_file_lock remove_stale_key_file_lock
lock_key_file processes owner others zero lock = (lock, false)
lock_key_file processes owner others (suc rounds) lock =
    wait_on (create_key_file_lock owner lock) λ held.
      lock_key_file processes owner others rounds
        (others rounds (remove_stale_key_file_lock processes held))
