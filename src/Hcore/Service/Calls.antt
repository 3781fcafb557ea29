-- ===== src/Hcore/Service/Calls.antt =====
-- The calls from outside, and what the state is like between two of them.
use inhive_core.Prelude.{
  ℕ, String, Bool, true, false, List, [], ◌∷◌, Option, none, some, Outcome, panic, ◌≡◌, ◌≢◌,
  if◌then◌else◌,
}
use inhive_core.Config.SingBox.{Options}
use inhive_core.Config.Settings.{InhiveOptions}
use inhive_core.Hcore.State.{
  stopped, started, MessageType, StartRequest, Moment, InhiveInstance, Reply, stop_and_alert,
}
use inhive_core.Hcore.Service.{World, start_service, stop}
use inhive_core.Hcore.Pause.{pause, wake}

-- The service is up exactly if an engine runs; there is never a second engine, a start to cancel, or a
-- pause without a service; the timer of a pause wakes the manager of the running engine.
pub record IsSound (s : InhiveInstance) : Type 0 where
  pub phase : s.core_state ≡ (if s.service then started else stopped)
  pub engine : s.engines ≡ (if s.service then 1 else 0)
  pub uncancelled : s.start_cancel ≡ false
  pub timer : (m : ℕ) → s.end_pause_timer ≡ some m → (m ≡ s.box) × (s.service ≡ true)
  pub unpaused : s.service ≡ false → s.paused_at ≡ none

-- An engine that starts does not panic in between.
abbrev pub NoPanic : World → Type 0
NoPanic w = (options : Options) → w.start_engine options ≢ panic

-- A call from outside.
pub data Call : Type 0 where
  start_call : World → Outcome StartRequest → Call
  stop_call : World → Call
  alert_call : MessageType → String → Call
  pause_call : World → Moment → Call
  wake_call : World → Moment → Call

abbrev pub perform : Call → InhiveInstance → InhiveInstance
perform (start_call w loaded) s = (start_service w loaded s).0
perform (stop_call w) s = (stop w s).0
perform (alert_call kind message) s = stop_and_alert kind message s
perform (pause_call w now) s = pause w now s
perform (wake_call w now) s = (wake w now s).0

abbrev pub Fine : InhiveInstance × Reply → Type 0
Fine r = IsSound r.0

abbrev pub Quiet : Call → Type 0
Quiet (start_call w loaded) = NoPanic w
Quiet _ = Unit

abbrev pub run : List Call → InhiveInstance → InhiveInstance
run [] s = s
run (c ∷ cs) s = run cs (perform c s)

-- The variable `static` as the process begins.
abbrev pub static : Option InhiveOptions → Bool → InhiveInstance
static options debug = record {
  core_state = stopped;
  service = false;
  engines = 0;
  box = 0;
  inhive_options = options;
  previous_start_request = none;
  last_start_name = none;
  debug = debug;
  listen_port = 0;
  memory_limit = false;
  end_pause_timer = none;
  paused_at = none;
  mode_watcher = false;
  mem_sampler = false;
  start_cancel = false;
  infos = [];
}
