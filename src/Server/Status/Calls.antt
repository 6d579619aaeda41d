-- ===== src/Server/Status/Calls.antt =====
-- crates/drv-thru/src/server/status.rs: sequences of the registry's calls.
use drv_thru.Base.{List, [], ◌∷◌, Option}
use drv_thru.Text.{Text}
use drv_thru.Server.Status.{
  StatusRegistry, Env, BuildResult, enqueue, start, set_build_phase, finish, heartbeat,
}

pub data Call : Type 0 where
  enqueues : Env → Text → Text → Call
  starts : Env → Text → Call
  phases : Env → Text → Text → Call
  finishes : Env → Text → BuildResult → Option Text → Call
  beats : Env → Call

unfoldable pub apply : Call → StatusRegistry → StatusRegistry
unfolding enqueue start set_build_phase finish heartbeat
apply (enqueues env client_label installable) r = (enqueue env r client_label installable).0
apply (starts env id) r = start env r id
apply (phases env id phase) r = set_build_phase env r id phase
apply (finishes env id result short_error) r = finish env r id result short_error
apply (beats env) r = heartbeat env r

unfoldable pub run : List Call → StatusRegistry → StatusRegistry
unfolding apply
run [] r = r
run (call ∷ calls) r = run calls (apply call r)
