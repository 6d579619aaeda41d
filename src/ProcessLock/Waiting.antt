-- ===== src/ProcessLock/Waiting.antt =====
-- crates/drv-thru/src/keys.rs: who gets the lock of a key file.
use drv_thru.Base.{
  ℕ, zero, suc, ◌≡◌, refl, Bool, true, false, none, some, Bool-cases, inl, inr, if◌then◌else◌,
}
use drv_thru.Text.{Text}
use drv_thru.ProcessLock.{
  Processes, owner_is_live, KeyLock, create_key_file_lock, remove_stale_key_file_lock,
  lock_key_file,
}

-- There is no lock, or its owner is gone.
abbrev pub Free : Processes → KeyLock → Type 0
Free processes none = Unit
Free processes (some holder) = owner_is_live processes holder ≡ false

live_lock_kept :
    (processes : Processes) (owner holder : Text) (others : ℕ → KeyLock → KeyLock) (rounds : ℕ)
    → owner_is_live processes holder ≡ true
    → ((i : ℕ) → others i (some holder) ≡ some holder)
    → lock_key_file processes owner others rounds (some holder) ≡ (some holder, false)
unfolding lock_key_file create_key_file_lock remove_stale_key_file_lock
live_lock_kept processes owner holder others zero live kept = refl
live_lock_kept processes owner holder others (suc rounds) live kept =
    rw (live, kept rounds) (live_lock_kept processes owner holder others rounds live kept)

lock_key_file-Free :
    (processes : Processes) (owner : Text) (others : ℕ → KeyLock → KeyLock) (rounds : ℕ)
    (lock : KeyLock)
    → Free processes lock
    → ((i : ℕ) → others i none ≡ none)
    → lock_key_file processes owner others (suc (suc rounds)) lock ≡ (some owner, true)
unfolding lock_key_file create_key_file_lock remove_stale_key_file_lock
lock_key_file-Free processes owner others rounds none free kept = refl
lock_key_file-Free processes owner others rounds (some holder) free kept =
    rw (free, kept (suc rounds)) refl

-- What waiting comes to.
abbrev pub settled : Processes → Text → KeyLock → KeyLock × Bool
settled processes owner none = (some owner, true)
settled processes owner (some holder) =
    if owner_is_live processes holder then (some holder, false) else (some owner, true)

-- While the processes stay the same and no other one touches the lock, a process that waits for it is
-- settled after two rounds and stays so: it has the lock if there was none or its owner is gone, and
-- it leaves the lock of a live owner, however often it looks.
pub lock_key_file-settled :
    (processes : Processes) (owner : Text) (others : ℕ → KeyLock → KeyLock) (rounds : ℕ)
    (lock : KeyLock)
    → ((i : ℕ) (held : KeyLock) → others i held ≡ held)
    → lock_key_file processes owner others (suc (suc rounds)) lock ≡ settled processes owner lock
lock_key_file-settled processes owner others rounds none quiet =
    lock_key_file-Free processes owner others rounds none tt (λ i. quiet i none)
lock_key_file-settled processes owner others rounds (some holder) quiet =
    elim (Bool-cases (owner_is_live processes holder)) [
      | inl live ↦ rw live (
          live_lock_kept processes owner holder others (suc (suc rounds)) live
            (λ i. quiet i (some holder)))
      | inr gone ↦
          rw gone (
            lock_key_file-Free processes owner others rounds (some holder) gone (λ i. quiet i none))
    ]
