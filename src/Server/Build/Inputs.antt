-- ===== src/Server/Build/Inputs.antt =====
-- crates/drv-thru/src/server/build.rs: the log of a run up to its inputs.
use drv_thru.Base.{ℕ, ◌≡◌, refl, List, [], ◌∷◌, Option, some, Result, map_err}
use drv_thru.Text.{Text, codes}
use drv_thru.Text.Prefix.{text_eq_self}
use drv_thru.Nix.StorePath.{StorePath}
use drv_thru.Protocol.{input_upload_ready, build_started}
use drv_thru.Server.Build.Lists.{At, send-At}
use drv_thru.Server.Build.{nix, phase, upload, none_missing, import_missing_inputs, import_some}
use drv_thru.Server.Session.{Event, World, Session, SessionError, nix_error, send, lift}
use drv_thru.Server.Session.Stages.{
  Work, checked, uploading, building, running, work_step, In, Running,
}
use drv_thru.Server.Session.Logs.{Ends, and_then-Ends, lift-Ends, if-Ends, Ends-map}

-- The stages that a step of a run can come to.
abbrev pub After : {A : Type 0} → Text → (A → Work) → A → List Event → Type 0
After id work a log = In id (running (work a)) log

pub stay-At :
    {A : Type 0} (world : World) (work : Work) (r : Result SessionError A) (s : Session)
    → In world.request_id (running work) s.log
    → Ends (At world.request_id work) (Running world.request_id) (lift r s)
stay-At world work r s h =
    lift-Ends (Running world.request_id) (At world.request_id work) r s (λ a e. h) (work, h)

pub phase-At :
    (world : World) (name : Text) (work : Work) (s : Session)
    → In world.request_id (running work) s.log
    → Ends (At world.request_id work) (Running world.request_id) (phase world name s)
unfolding phase
phase-At world name work s h = rw (h, text_eq_self world.request_id) refl

upload-At :
    (world : World) (max_upload_bytes : Option ℕ) (s : Session)
    → In world.request_id (running uploading) s.log
    → Ends
        (At world.request_id uploading)
        (Running world.request_id)
        (upload world max_upload_bytes s)
upload-At world max_upload_bytes s h =
    if-Ends (Running world.request_id) (At world.request_id uploading) world.upload_opened _ _ s
      (stay-At world uploading (map_err nix_error (world.nix.import_stream max_upload_bytes)) s h)
      (uploading, h)

none_missing-At :
    (world : World) (paths : List StorePath) (s : Session)
    → In world.request_id (running uploading) s.log
    → Ends (At world.request_id uploading) (Running world.request_id) (none_missing paths s)
none_missing-At world [] s h = h
none_missing-At world (p ∷ paths) s h = (uploading, h)

import_missing_inputs-At :
    (world : World) (paths : List StorePath) (max_upload_bytes : Option ℕ) (s : Session)
    → In world.request_id (running checked) s.log
    → Ends
        (At world.request_id uploading)
        (Running world.request_id)
        (import_missing_inputs world paths max_upload_bytes s)
unfolding import_missing_inputs
import_missing_inputs-At world paths max_upload_bytes s h =
    and_then-Ends (At world.request_id uploading) (At world.request_id uploading)
      (Running world.request_id) (send input_upload_ready s) _
      (send-At world.request_id checked uploading input_upload_ready s refl h)
      λ u t k.
        and_then-Ends (At world.request_id uploading) (At world.request_id uploading)
          (Running world.request_id) (upload world max_upload_bytes t) _
          (upload-At world max_upload_bytes t k)
          λ u v l.
            and_then-Ends (At world.request_id uploading) (At world.request_id uploading)
              (Running world.request_id) (nix (world.nix.missing_after paths) v) _
              (stay-At world uploading (map_err nix_error (world.nix.missing_after paths)) v l)
              λ still w m. none_missing-At world still w m

-- Ready to build: nothing was missing, or it has been uploaded.
abbrev pub Ready : {A : Type 0} → Text → A → List Event → Type 0
Ready id a log =
    (work : Work) × (work_step work build_started ≡ some building) × In id (running work) log

pub import_some-Ready :
    (world : World) (missing : List StorePath) (max_upload_bytes : Option ℕ) (s : Session)
    → In world.request_id (running checked) s.log
    → Ends
        (Ready world.request_id)
        (Running world.request_id)
        (import_some world missing max_upload_bytes s)
import_some-Ready world [] max_upload_bytes s h = (checked, refl, h)
import_some-Ready world (p ∷ missing) max_upload_bytes s h =
    and_then-Ends (At world.request_id checked) (Ready world.request_id) (Running world.request_id)
      (phase world (codes "uploading inputs") s) _
      (phase-At world (codes "uploading inputs") checked s h)
      λ u t k.
        Ends-map (At world.request_id uploading) (Ready world.request_id) (Running world.request_id)
          (Running world.request_id) (λ v log l. (uploading, refl, l)) (λ log r. r)
          (import_missing_inputs world (p ∷ missing) max_upload_bytes t)
          (import_missing_inputs-At world (p ∷ missing) max_upload_bytes t k)
