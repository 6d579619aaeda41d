-- ===== src/Server/Session/Logs.antt =====
-- crates/drv-thru/src/server: what a call of a session leaves in its log, for calls in a row.
use drv_thru.Base.{◌≡◌, refl, List, [], ◌∷◌, Result, ok, err, if◌then◌else◌, true, false, Bool}
use drv_thru.Protocol.{Message}
use drv_thru.Protocol.PathChunks.{Incoming}
use drv_thru.Server.Session.{
  Event, sends, World, Session, SessionError, Outcome, M, and_then, send, write_at, read_message,
  read_from, finish_control, lift,
}

-- The log after a result, and after an error.
abbrev pub Ends :
    {A : Type 0} → (A → List Event → Type 0) → (List Event → Type 0) → Outcome A → Type 0
Ends P Q (ok a, s) = P a s.log
Ends P Q (err e, s) = Q s.log

pub and_then-Ends :
    {A B : Type 0} (P : A → List Event → Type 0) (R : B → List Event → Type 0)
    (Q : List Event → Type 0) (o : Outcome A) (k : A → M B)
    → Ends P Q o
    → ((a : A) (s : Session) → P a s.log → Ends R Q (k a s))
    → Ends R Q (and_then o k)
and_then-Ends P R Q (ok a, s) k h next = next a s h
and_then-Ends P R Q (err e, s) k h next = h

-- The value and the session after a result.
abbrev pub Gives : {A : Type 0} → (A → Session → Type 0) → Outcome A → Type 0
Gives L (ok a, s) = L a s
Gives L (err e, s) = Unit

pub and_then-Gives :
    {A B : Type 0} (P : A → List Event → Type 0) (L : A → Session → Type 0)
    (R : B → List Event → Type 0) (Q : List Event → Type 0) (o : Outcome A) (k : A → M B)
    → Ends P Q o
    → Gives L o
    → ((a : A) (s : Session) → P a s.log → L a s → Ends R Q (k a s))
    → Ends R Q (and_then o k)
and_then-Gives P L R Q (ok a, s) k h l next = next a s h l
and_then-Gives P L R Q (err e, s) k h l next = h

-- A read takes the message that comes next.
pub read_message-Gives :
    (s : Session) → Gives (λ message t. s.recv ≡ ok message ∷ t.recv) (read_message s)
unfolding read_message
read_message-Gives s = first s.recv refl
  where
    first :
        (recv : List Incoming)
        → s.recv ≡ recv
        → Gives (λ message t. s.recv ≡ ok message ∷ t.recv) (read_from recv s)
    first [] e = tt
    first (err x ∷ rest) e = tt
    first (ok message ∷ rest) e = e

pub Ends-map :
    {A : Type 0} (P P' : A → List Event → Type 0) (Q Q' : List Event → Type 0)
    → ((a : A) (log : List Event) → P a log → P' a log)
    → ((log : List Event) → Q log → Q' log)
    → (o : Outcome A) → Ends P Q o
    → Ends P' Q' o
Ends-map P P' Q Q' f g (ok a, s) h = f a s.log h
Ends-map P P' Q Q' f g (err e, s) h = g s.log h

module _ (Q : List Event → Type 0) where
  -- A condition that any log meets.
  pub Ends-all : {A : Type 0} → ((log : List Event) → Q log) → (o : Outcome A) → Ends (λ a. Q) Q o
  Ends-all f (ok a, s) = f s.log
  Ends-all f (err e, s) = f s.log

  pub if-Ends :
      {A : Type 0} (P : A → List Event → Type 0) (test : Bool) (m n : M A) (s : Session)
      → Ends P Q (m s)
      → Ends P Q (n s)
      → Ends P Q ((if test then m else n) s)
  if-Ends P true m n s h k = h
  if-Ends P false m n s h k = k

  write_at-Ends :
      (P : Unit {0} → List Event → Type 0) (writes : List Bool) (message : Message) (s : Session)
      → P tt (sends message ∷ s.log)
      → Q s.log
      → Ends P Q (write_at writes message s)
  write_at-Ends P [] message s p q = q
  write_at-Ends P (false ∷ writes) message s p q = q
  write_at-Ends P (true ∷ writes) message s p q = p

  -- A write adds its message or nothing.
  pub send-Ends :
      (P : Unit {0} → List Event → Type 0) (message : Message) (s : Session)
      → P tt (sends message ∷ s.log)
      → Q s.log
      → Ends P Q (send message s)
  unfolding send
  send-Ends P message s p q = write_at-Ends P s.writes message s p q

  read_from-Ends :
      (P : Message → List Event → Type 0) (recv : List Incoming) (s : Session)
      → ((message : Message) → P message s.log)
      → Q s.log
      → Ends P Q (read_from recv s)
  read_from-Ends P [] s p q = q
  read_from-Ends P (err e ∷ recv) s p q = q
  read_from-Ends P (ok message ∷ recv) s p q = p message

  -- The calls that leave the log.
  pub read_message-Ends :
      (P : Message → List Event → Type 0) (s : Session)
      → ((message : Message) → P message s.log)
      → Q s.log
      → Ends P Q (read_message s)
  unfolding read_message
  read_message-Ends P s p q = read_from-Ends P s.recv s p q

  pub lift-Ends :
      {A : Type 0} (P : A → List Event → Type 0) (r : Result SessionError A) (s : Session)
      → ((a : A) → r ≡ ok a → P a s.log)
      → Q s.log
      → Ends P Q (lift r s)
  lift-Ends P (ok a) s p q = p a refl
  lift-Ends P (err e) s p q = q

  pub finish_control-Ends :
      (P : Unit {0} → List Event → Type 0) (world : World) (s : Session)
      → P tt s.log
      → Q s.log
      → Ends P Q (finish_control world s)
  unfolding finish_control
  finish_control-Ends P world s p q = if-Ends P world.finish_ok _ _ s p q
