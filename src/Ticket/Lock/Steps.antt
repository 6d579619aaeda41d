-- ===== src/Ticket/Lock/Steps.antt =====
-- crates/drv-thru/src/ticket.rs: what a call leaves of a lock directory that at most one process owns.
use drv_thru.Base.{
  ℕ, ◌≡◌, ◌≢◌, ◌⊎◌, ◌<◌, ◌^◌, refl, sym, ap, subst, ◌∙◌, Bool, true, false, ◌&&◌, [], ◌∷◌, Option,
  none, some, ◌==◌, ==_self, ==_iff, arith, Bool-cases, inl, inr,
}
use drv_thru.Text.{Text}
use drv_thru.ProcessLock.{Processes, process_start_time, current_owner_text, owner_is_live}
use drv_thru.ProcessLock.Owners.{owner_is_live-current_owner_text}
use drv_thru.Ticket.Lock.{
  LockDir, LockStage, tries, makes_pid, fills_pid, makes_owner, fills_owner, cleans, fails, holds,
  looks, looks_pid, removes, lock_step, LockSystem, Move, remove_dir, found_owner, update,
}

abbrev pub has_text : Option Text → Bool
has_text none = false
has_text (some []) = false
has_text (some (c ∷ text)) = true

-- A process that looks reads an owner file with a text in it.
abbrev pub sees : Bool → LockStage → LockDir → Bool
sees works looks none = false
sees works looks (some files) = works && has_text files.owner
sees works stage dir = true

-- The process of the move runs.
abbrev pub Runs : Processes → Move → Type 0
Runs processes m =
    (start_time : Text) × (m.pid < 2 ^ 32) × (process_start_time processes m.pid ≡ some start_time)

-- It has made the directory and not removed it.
abbrev pub owns : LockStage → Bool
owns makes_pid = true
owns fills_pid = true
owns makes_owner = true
owns fills_owner = true
owns cleans = true
owns holds = true
owns stage = false

-- It removes no other's directory.
abbrev pub patient : LockStage → Bool
patient looks_pid = false
patient removes = false
patient stage = true

abbrev pub there : LockDir → Bool
there none = false
there (some files) = true

abbrev pub TextLive : Processes → Option Text → Type 0
TextLive processes none = Unit
TextLive processes (some []) = Unit
TextLive processes (some (c ∷ text)) = owner_is_live processes (c ∷ text) ≡ true

abbrev pub OwnerLive : Processes → LockDir → Type 0
OwnerLive processes none = Unit
OwnerLive processes (some files) = TextLive processes files.owner

pub record Excludes (processes : Processes) (s : LockSystem) : Type 0 where
  pub alone : (p q : ℕ) → owns (s.stage p) ≡ true → owns (s.stage q) ≡ true → p ≡ q
  pub made : (p : ℕ) → owns (s.stage p) ≡ true → there s.dir ≡ true
  pub live : OwnerLive processes s.dir
  pub waits : (p : ℕ) → patient (s.stage p) ≡ true

update-cases :
    (stage : ℕ → LockStage) (p : ℕ) (next : LockStage) (q : ℕ)
    → ((p ≡ q) × (update stage p next q ≡ next)) ⊎ ((q ≢ p) × (update stage p next q ≡ stage q))
update-cases stage p next q = elim (Bool-cases (p == q)) [
  | inl e ↦ inl ((==_iff p q).0 e, rw e refl)
  | inr e ↦ inr (λ same. absurd (ground (arith, ==_self p)), rw e refl)
]

-- A move to a stage that owns the directory only if no other does, and that leaves the directory to the
-- one that owns it.
pub record Fits (processes : Processes) (s : LockSystem) (p : ℕ) (next : LockStage) (dir : LockDir)
    : Type 0 where
  pub taken : owns next ≡ true → there dir ≡ true
  pub only : (q : ℕ) → owns next ≡ true → owns (s.stage q) ≡ true → p ≡ q
  pub left : (q : ℕ) → q ≢ p → owns (s.stage q) ≡ true → there dir ≡ true
  pub live : OwnerLive processes dir
  pub waits : patient next ≡ true

pub Fits-Excludes :
    (processes : Processes) (s : LockSystem) (p : ℕ) (next : LockStage) (dir : LockDir)
    → Excludes processes s
    → Fits processes s p next dir
    → Excludes processes (record { dir = dir; stage = update s.stage p next })
Fits-Excludes processes s p next dir v f = record {
  alone = λ a b h k. elim (update-cases s.stage p next a) [
    | inl (is_p, e) ↦ elim (update-cases s.stage p next b) [
      | inl (is_p', e') ↦ sym is_p ∙ is_p'
      | inr (other, e') ↦ sym is_p ∙ f.only b (sym (ap owns e) ∙ h) (sym (ap owns e') ∙ k)
    ]
    | inr (other, e) ↦ elim (update-cases s.stage p next b) [
      | inl (is_p, e') ↦ sym (f.only a (sym (ap owns e') ∙ k) (sym (ap owns e) ∙ h)) ∙ is_p
      | inr (other', e') ↦ v.alone a b (sym (ap owns e) ∙ h) (sym (ap owns e') ∙ k)
    ]
  ];
  made = λ a h. elim (update-cases s.stage p next a) [
    | inl (is_p, e) ↦ f.taken (sym (ap owns e) ∙ h)
    | inr (other, e) ↦ f.left a other (sym (ap owns e) ∙ h)
  ];
  live = f.live;
  waits = λ a. elim (update-cases s.stage p next a) [
    | inl (is_p, e) ↦ ap patient e ∙ f.waits
    | inr (other, e) ↦ ap patient e ∙ v.waits a
  ];
}

module _ (processes : Processes) (s : LockSystem) (v : Excludes processes s) (p : ℕ) where
  idles :
      (next : LockStage) (dir : LockDir)
      → s.dir ≡ dir
      → owns next ≡ false
      → patient next ≡ true
      → Fits processes s p next dir
  idles next dir same free waits = record {
    taken = λ h. absurd (ground arith);
    only = λ q h k. absurd (ground arith);
    left = λ q other h. sym (ap there same) ∙ v.made q h;
    live = subst (OwnerLive processes) same v.live;
    waits = waits;
  }

  takes :
      (next : LockStage) (dir : LockDir)
      → s.dir ≡ none
      → there dir ≡ true
      → OwnerLive processes dir
      → patient next ≡ true
      → Fits processes s p next dir
  takes next dir nothing made live waits = record {
    taken = λ h. made;
    only = λ q h k. absurd (ground (arith, sym (ap there nothing) ∙ v.made q k));
    left = λ q other h. made;
    live = live;
    waits = waits;
  }

  module _ (owned : owns (s.stage p) ≡ true) where
    keeps :
        (next : LockStage) (dir : LockDir)
        → there dir ≡ true
        → OwnerLive processes dir
        → patient next ≡ true
        → Fits processes s p next dir
    keeps next dir made live waits = record {
      taken = λ h. made;
      only = λ q h k. v.alone p q owned k;
      left = λ q other h. made;
      live = live;
      waits = waits;
    }

    leaves :
        (next : LockStage) (dir : LockDir)
        → owns next ≡ false
        → OwnerLive processes dir
        → patient next ≡ true
        → Fits processes s p next dir
    leaves next dir free live waits = record {
      taken = λ h. absurd (ground arith);
      only = λ q h k. absurd (ground arith);
      left = λ q other h. absurd (other (v.alone q p h owned));
      live = live;
      waits = waits;
    }

removed-OwnerLive :
    (processes : Processes) (works : Bool) (dir : LockDir)
    → OwnerLive processes dir
    → OwnerLive processes (remove_dir works dir)
removed-OwnerLive processes true dir live = tt
removed-OwnerLive processes false dir live = live

-- A look that finds a live owner leads to the next try.
looked :
    (processes : Processes) (owner : Option Text)
    → has_text owner ≡ true
    → TextLive processes owner
    → found_owner processes owner ≡ tries
looked processes none seen live = absurd (cc)
looked processes (some []) seen live = absurd (cc)
looked processes (some (c ∷ text)) seen live = rw live refl

text-TextLive :
    (processes : Processes) (text : Text)
    → owner_is_live processes text ≡ true
    → TextLive processes (some text)
text-TextLive processes [] live = tt
text-TextLive processes (c ∷ text) live = live

module _ (processes : Processes) (s : LockSystem) (v : Excludes processes s) (m : Move)
    (runs : Runs processes m) where
  text_lives : owner_is_live processes (current_owner_text processes m.pid) ≡ true
  text_lives =
      (owner_is_live-current_owner_text processes processes m.pid runs.0 runs.1 runs.2).1 runs.2

  -- What a process owns is there.
  owned_there : (stage : LockStage) → owns stage ≡ true → s.stage m.pid ≡ stage → s.dir ≡ none → ⊥
  owned_there stage owned e d =
      absurd (ground (arith, sym (ap there d) ∙ v.made m.pid (ap owns e ∙ owned)))

  live_at : (dir : LockDir) → s.dir ≡ dir → OwnerLive processes dir
  live_at dir d = subst (OwnerLive processes) d v.live

  pub step-Fits :
      (stage : LockStage) (dir : LockDir) (works : Bool)
      → s.stage m.pid ≡ stage
      → s.dir ≡ dir
      → sees works stage dir ≡ true
      → Fits processes s m.pid
          (lock_step processes m.pid works stage dir).0
          (lock_step processes m.pid works stage dir).1
  unfolding lock_step
  step-Fits tries none true e d h = takes processes s v m.pid makes_pid _ d refl tt refl
  step-Fits tries none false e d h = idles processes s v m.pid fails none d refl refl
  step-Fits tries (some files) works e d h =
      idles processes s v m.pid looks (some files) d refl refl
  step-Fits makes_pid none works e d h = absurd (owned_there makes_pid refl e d)
  step-Fits makes_pid (some files) true e d h =
      keeps processes s v m.pid (ap owns e) fills_pid _ refl (live_at (some files) d) refl
  step-Fits makes_pid (some files) false e d h =
      keeps processes s v m.pid (ap owns e) cleans _ refl (live_at (some files) d) refl
  step-Fits fills_pid none works e d h = absurd (owned_there fills_pid refl e d)
  step-Fits fills_pid (some files) true e d h =
      keeps processes s v m.pid (ap owns e) makes_owner _ refl (live_at (some files) d) refl
  step-Fits fills_pid (some files) false e d h =
      keeps processes s v m.pid (ap owns e) cleans _ refl (live_at (some files) d) refl
  step-Fits makes_owner none works e d h = absurd (owned_there makes_owner refl e d)
  step-Fits makes_owner (some files) true e d h =
      keeps processes s v m.pid (ap owns e) fills_owner _ refl tt refl
  step-Fits makes_owner (some files) false e d h =
      keeps processes s v m.pid (ap owns e) cleans _ refl (live_at (some files) d) refl
  step-Fits fills_owner none works e d h = absurd (owned_there fills_owner refl e d)
  step-Fits fills_owner (some files) true e d h =
      keeps processes s v m.pid (ap owns e) holds _ refl (text-TextLive processes _ text_lives) refl
  step-Fits fills_owner (some files) false e d h =
      keeps processes s v m.pid (ap owns e) cleans _ refl (live_at (some files) d) refl
  step-Fits cleans dir works e d h =
      leaves processes s v m.pid (ap owns e) fails _ refl
        (removed-OwnerLive processes works dir (live_at dir d)) refl
  step-Fits fails dir works e d h = idles processes s v m.pid tries dir d refl refl
  step-Fits holds dir works e d h =
      leaves processes s v m.pid (ap owns e) tries _ refl
        (removed-OwnerLive processes works dir (live_at dir d)) refl
  step-Fits looks none works e d h = absurd (cc)
  step-Fits looks (some files) false e d h = absurd (cc)
  step-Fits looks (some files) true e d h =
      rw (looked processes files.owner h (live_at (some files) d))
        (idles processes s v m.pid tries (some files) d refl refl)
  step-Fits looks_pid dir works e d h = absurd (ground (arith, sym (ap patient e) ∙ v.waits m.pid))
  step-Fits removes dir works e d h = absurd (ground (arith, sym (ap patient e) ∙ v.waits m.pid))
