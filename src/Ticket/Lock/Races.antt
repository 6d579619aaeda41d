-- ===== src/Ticket/Lock/Races.antt =====
-- crates/drv-thru/src/ticket.rs: two processes that have the lock directory at once.
use drv_thru.Base.{
  ℕ, zero, suc, ◌≡◌, ◌≢◌, refl, sym, ap, Bool, true, false, List, [], ◌∷◌, ◌++◌, none, ◌==◌,
  ==_self, ==_iff, Bool-cases, inl, inr,
}
use mathlib.Core.Path.{ap₂}
use drv_thru.ProcessLock.{Processes, owner_is_live}
use drv_thru.Ticket.Lock.{
  LockDir, LockStage, tries, holds, lock_step, LockSystem, unlocked, Move, move, run,
}

-- The turns of two processes, on a file system that works: `true` is the first.
abbrev pub turns : ℕ → ℕ → List Bool → List Move
turns p q [] = []
turns p q (true ∷ order) = record { pid = p; works = true } ∷ turns p q order
turns p q (false ∷ order) = record { pid = q; works = true } ∷ turns p q order

abbrev pub times : ℕ → Bool → List Bool
times zero who = []
times (suc n) who = who ∷ times n who

-- The second looks at a directory that has no file yet.
abbrev pub race_at_start : List Bool
race_at_start = times 1 true ++ times 9 false ++ times 4 true

-- The second finds a directory that is gone when it looks, and removes the next one.
abbrev pub race_at_end : List Bool
race_at_end =
    times 5 true ++ times 1 false ++ times 1 true ++ times 2 false ++ times 5 true ++ times 6 false

-- Both stages and the directory of two processes.
record View (p q : ℕ) (s : LockSystem) (a b : LockStage) (dir : LockDir) : Type 0 where
  first : s.stage p ≡ a
  second : s.stage q ≡ b
  holds_dir : s.dir ≡ dir

module _ (processes : Processes) (p q : ℕ) where
  duel : List Bool → LockStage → LockStage → LockDir → LockStage × LockStage
  unfolding lock_step
  duel [] a b dir = (a, b)
  duel (true ∷ order) a b dir =
      duel order (lock_step processes p true a dir).0 b (lock_step processes p true a dir).1
  duel (false ∷ order) a b dir =
      duel order a (lock_step processes q true b dir).0 (lock_step processes q true b dir).1

  module _ (apart : p ≢ q) where
    p_not_q : (p == q) ≡ false
    p_not_q = elim (Bool-cases (p == q)) [ inl e ↦ absurd (apart ((==_iff p q).0 e)) | inr e ↦ e ]

    q_not_p : (q == p) ≡ false
    q_not_p = elim (Bool-cases (q == p)) [
      | inl e ↦ absurd (apart (sym ((==_iff q p).0 e)))
      | inr e ↦ e
    ]

    run-duel :
        (order : List Bool) (s : LockSystem) (a b : LockStage) (dir : LockDir)
        → View p q s a b dir
        → ((run processes (turns p q order) s).stage p ≡ (duel order a b dir).0)
          × ((run processes (turns p q order) s).stage q ≡ (duel order a b dir).1)
    unfolding run duel
    run-duel [] s a b dir v = (v.first, v.second)
    run-duel (true ∷ order) s a b dir v =
        let same : lock_step processes p true (s.stage p) s.dir ≡ lock_step processes p true a dir =
          ap₂ (lock_step processes p true) v.first v.holds_dir in
        run-duel order (move processes (record { pid = p; works = true }) s) _ b _ (record {
          first = rw (==_self p) (ap (λ r. r.0) same);
          second = rw p_not_q v.second;
          holds_dir = ap (λ r. r.1) same;
        })
    run-duel (false ∷ order) s a b dir v =
        let same : lock_step processes q true (s.stage q) s.dir ≡ lock_step processes q true b dir =
          ap₂ (lock_step processes q true) v.second v.holds_dir in
        run-duel order (move processes (record { pid = q; works = true }) s) a _ _ (record {
          first = rw q_not_p v.first;
          second = rw (==_self q) (ap (λ r. r.0) same);
          holds_dir = ap (λ r. r.1) same;
        })

    -- Any two processes can come to have the lock at once, whether they run or not.
    pub race-both :
        ((run processes (turns p q race_at_start) unlocked).stage p ≡ holds)
        × ((run processes (turns p q race_at_start) unlocked).stage q ≡ holds)
        × ((run processes (turns p q race_at_end) unlocked).stage p ≡ holds)
        × ((run processes (turns p q race_at_end) unlocked).stage q ≡ holds)
    unfolding duel owner_is_live
    race-both =
        let start : View p q unlocked tries tries none = record {
          first = refl;
          second = refl;
          holds_dir = refl;
        } in
        let (a, b) = run-duel race_at_start unlocked tries tries none start in
        let (c, d) = run-duel race_at_end unlocked tries tries none start in (a, b, c, d)
