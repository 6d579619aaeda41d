-- ===== src/Client/Build/Writes.antt =====
-- crates/drv-thru/src/client/session.rs: what a step of `build` writes, and whether a request is in it.
use drv_thru.Base.{
  ◌≡◌, inl, inr, refl, ap, ◌∙◌, ◌++◌, Bool-cases, Bool, true, false, List, [], ◌∷◌, Option, none,
  some, Result, ok, err, arith, any, map_err, context, ok-injective,
}
use drv_thru.Text.{Text}
use drv_thru.Protocol.{Message, build_request}
use drv_thru.Protocol.Wire.{Bytes, write_json}
use drv_thru.Protocol.PathChunks.{Sent, has_frame, send_row}
use drv_thru.Client.{BuildAuth, trusted_client, ticket, write_hello, write_auth}
use drv_thru.Client.Build.{BuildError, Written, with_step, writes}

abbrev pub asks : Message → Bool
asks (build_request request) = true
asks message = false

abbrev pub Asks : Written → Type 0
Asks written = any asks written.0 ≡ true

pub with_step-Asks :
    {A : Type 0} (r : Result BuildError A) (next : A → Written)
    → Asks (with_step r next)
    → (a : A) × (r ≡ ok a) × Asks (next a) × (with_step r next ≡ next a)
with_step-Asks (err e) next h = ground arith
with_step-Asks (ok a) next h = (a, refl, h, refl)

pub map_err-eq :
    {E F A : Type 0} (f : E → F) (r : Result E A) (a : A) → map_err f r ≡ ok a → r ≡ ok a
map_err-eq f (err e) a h = cc
map_err-eq f (ok b) a h = ap ok (ok-injective h)

pub context-eq :
    {A : Type 0} (o : Option A) (e : BuildError) (a : A) → context o e ≡ ok a → o ≡ some a
context-eq none e a h = cc
context-eq (some b) e a h = ap some (ok-injective h)

-- What goes onto a stream is a part of what was to be written.
send_row-all :
    (encode : Message → Option Bytes) (messages : List Message)
    → (send_row encode messages).1 ≡ true
    → (send_row encode messages).0 ≡ messages
unfolding send_row
send_row-all encode [] h = refl
send_row-all encode (m ∷ messages) h = elim (Bool-cases (has_frame (write_json encode m))) [
  | inl e ↦ rw e (ap (◌∷◌ m) (send_row-all encode messages (ground arith)))
  | inr e ↦ absurd (ground arith)
]

send_row-asks :
    (encode : Message → Option Bytes) (messages : List Message)
    → any asks messages ≡ false
    → any asks (send_row encode messages).0 ≡ false
unfolding send_row
send_row-asks encode [] h = refl
send_row-asks encode (m ∷ messages) h = elim (Bool-cases (has_frame (write_json encode m))) [
  | inl e ↦ rw e (ground (arith, send_row-asks encode messages (ground arith)))
  | inr e ↦ rw e refl
]

any-after :
    (messages others : List Message)
    → any asks messages ≡ false
    → any asks (messages ++ others) ≡ true
    → any asks others ≡ true
any-after [] others h k = k
any-after (m ∷ messages) others h k = any-after messages others (ground arith) (ground arith)

writes-Asks :
    (flows : Bool) (sent : Sent) (next : Written)
    → any asks sent.0 ≡ false
    → Asks (writes flows sent next)
    → (sent.1 ≡ true) × Asks next × ((writes flows sent next).0 ≡ sent.0 ++ next.0)
writes-Asks true (messages, true) next quiet h = (refl, any-after messages next.0 quiet h, refl)
writes-Asks true (messages, false) next quiet h = absurd (ground arith)
writes-Asks false (messages, sent) next quiet h = absurd (ground arith)

opening-quiet :
    (node_id : Text) (auth : BuildAuth)
    → any asks (write_hello node_id ∷ write_auth auth ∷ []) ≡ false
opening-quiet node_id trusted_client = refl
opening-quiet node_id (ticket secret) = refl

pub opening-asks :
    (encode : Message → Option Bytes) (node_id : Text) (auth : BuildAuth) (flows : Bool)
    (next : Written)
    → Asks (writes flows (send_row encode (write_hello node_id ∷ write_auth auth ∷ [])) next)
    → Asks next
      × ((writes flows (send_row encode (write_hello node_id ∷ write_auth auth ∷ [])) next).0
          ≡ write_hello node_id ∷ write_auth auth ∷ next.0)
opening-asks encode node_id auth flows next h =
    let messages = write_hello node_id ∷ write_auth auth ∷ [] in
    let (whole, asked, same) =
      writes-Asks flows (send_row encode messages) next
        (send_row-asks encode messages (opening-quiet node_id auth)) h in
    (asked, same ∙ ap (λ ms. ms ++ next.0) (send_row-all encode messages whole))
