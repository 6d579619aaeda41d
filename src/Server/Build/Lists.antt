-- ===== src/Server/Build/Lists.antt =====
-- crates/drv-thru/src/server/build.rs: messages of a run in the log: single ones and path lists.
use drv_thru.Base.{
  ℕ, ◌+◌, ◌-◌, ◌≡◌, refl, sym, subst, Bool, true, false, List, [], ◌∷◌, some, arith, length, ◌==◌,
  All,
}
use drv_thru.Text.{Text}
use drv_thru.Protocol.{Message, PathListChunk}
use drv_thru.Protocol.PathChunks.{chunk_messages, write_chunks, path_chunk_size}
use drv_thru.Protocol.PathChunks.Chunks.{chunks-parts}
use drv_thru.Server.Session.{Event, Session, send, send_all}
use drv_thru.Server.Session.Stages.{Work, running, work_step, In, Running}
use drv_thru.Server.Session.Logs.{Ends, and_then-Ends, send-Ends}

-- The log stays in the run.
abbrev pub At : {A : Type 0} → Text → Work → A → List Event → Type 0
At id work a log = In id (running work) log

-- A message of the run, in its turn.
pub send-At :
    (id : Text) (work next : Work) (message : Message) (s : Session)
    → work_step work message ≡ some next
    → In id (running work) s.log
    → Ends (At id next) (Running id) (send message s)
send-At id work next message s e h =
    send-Ends (Running id) (At id next) message s (rw h (rw e refl)) (work, h)

-- Messages that leave the stage.
pub send_all-At :
    (id : Text) (work : Work) (messages : List Message) (s : Session)
    → All (λ m. work_step work m ≡ some work) messages
    → In id (running work) s.log
    → Ends (At id work) (Running id) (send_all messages s)
unfolding send_all
send_all-At id work [] s q h = h
send_all-At id work (m ∷ messages) s (e, q) h =
    and_then-Ends (At id work) (At id work) (Running id) (send m s) _ (send-At id work work m s e h)
      λ u t k. send_all-At id work messages t q k

-- A path list leaves its stage with its last chunk.
module _ (id : Text) (work next : Work) (make : PathListChunk → Message)
    (more : (paths : List Text)
      → work_step work (make (record { paths = paths; done = false })) ≡ some work)
    (end : (paths : List Text)
      → work_step work (make (record { paths = paths; done = true })) ≡ some next) where
  last-At :
      (is_last : Bool) (paths : List Text) (s : Session)
      → is_last ≡ true
      → In id (running work) s.log
      → Ends (At id next) (Running id) (send (make (record { paths = paths; done = is_last })) s)
  last-At true paths s e h = send-At id work next _ s (end paths) h
  last-At false paths s e h = absurd (ground arith)

  inner-At :
      (is_last : Bool) (paths : List Text) (s : Session)
      → is_last ≡ false
      → In id (running work) s.log
      → Ends (At id work) (Running id) (send (make (record { paths = paths; done = is_last })) s)
  inner-At true paths s e h = absurd (ground arith)
  inner-At false paths s e h = send-At id work work _ s (more paths) h

  chunks-At :
      (last index : ℕ) (path : List Text) (rest : List (List Text)) (s : Session)
      → index + length rest ≡ last
      → In id (running work) s.log
      → Ends (At id next) (Running id) (send_all (write_chunks last index make (path ∷ rest)) s)
  unfolding send_all write_chunks
  chunks-At last index path [] s n h =
      and_then-Ends (At id next) (At id next) (Running id) _ (λ u. send_all [])
        (last-At (index == last) path s (ground (arith, n)) h) λ u t k. k
  chunks-At last index path (path' ∷ rest) s n h =
      and_then-Ends (At id work) (At id next) (Running id) _
        (λ u. send_all (write_chunks last (index + 1) make (path' ∷ rest)))
        (inner-At (index == last) path s (ground (arith, n)) h)
        λ u t k. chunks-At last (index + 1) path' rest t (omega (arith, n)) k

  pub write-At :
      (paths : List Text) (s : Session)
      → In id (running work) s.log
      → Ends (At id next) (Running id) (send_all (chunk_messages paths make) s)
  unfolding send_all chunk_messages
  write-At [] s h =
      and_then-Ends (At id next) (At id next) (Running id) (send _ s) (λ u. send_all [])
        (last-At true [] s refl h) λ u t k. k
  write-At (path ∷ paths) s h =
      let (part, parts, e) = chunks-parts path_chunk_size path paths in
      subst
        (λ all.
          Ends (At id next) (Running id) (send_all (write_chunks (length all - 1) 0 make all) s))
        (sym e) (chunks-At (length (part ∷ parts) - 1) 0 part parts s (omega arith) h)
