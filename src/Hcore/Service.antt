-- ===== src/Hcore/Service.antt =====
-- v2/hcore/start.go, service.go and stop.go: the start and the stop of the service. What the engine, the
-- platform and the readers of configurations answer during a call is in a `World`.
pub mod Calls
pub mod Starts
pub mod Sound
pub mod Replies
pub mod Repeats
use inhive_core.Prelude.{
  ℕ, String, Bool, true, false, not, ◌&&◌, ◌||◌, List, [], ◌∷◌, Option, none, some, Outcome, ok,
  fail, panic, ◌>>=◌, if◌then◌else◌, ◌-◌, suc,
}
use inhive_core.Config.SingBox.{Options}
use inhive_core.Config.Settings.{InhiveOptions}
use inhive_core.Config.Env.{Env}
use inhive_core.Config.Build.{build_config}
use inhive_core.Hcore.State.{
  CoreStates, stopped, starting, started, stopping, empty, start_service_failed, unexpected_error,
  already_started, already_stopped, error_building_config, MessageType, StartRequest,
  InhiveInstance, Reply, info, set_core_status, set_start_cancel, clear_start_cancel,
  reset_pause_state, error_wrapper,
}
use inhive_core.Hcore.LastStart.{Table, save_last_start_request, load_last_start_request_if_needed}

pub record World : Type 0 where
  pub env : Env
  pub read_sing_options : StartRequest → Outcome Options
  pub marshal : Options → Outcome (Unit {0})
  pub register_platform : Outcome (Unit {0})
  pub check_options : Options → Outcome (Unit {0})
  pub start_engine : Options → Outcome (Unit {0})
  pub close_service : Outcome (Unit {0})
  pub has_instance : Bool
  pub has_manager : Bool
  pub socks_ports : Options → List ℕ
  pub is_ios : Bool

-- `BuildConfig` of buildconfighelper.go, which dereferences the settings in `initDaita` first.
unfoldable pub built : World → Option InhiveOptions → StartRequest → Outcome Options
built w none r = panic
built w (some hopts) r =
    if r.enable_raw_config
    then w.read_sing_options r
    else (build_config w.env hopts (w.read_sing_options r) >>= λ res. ok res.0)

-- What the two outcomes, of the check and of the start, make of the engine: one that does not start is
-- closed again, and a panic leaves it as it is.
unfoldable pub engine_after :
    Outcome (Unit {0}) → Outcome (Unit {0}) → InhiveInstance → InhiveInstance × Outcome (Unit {0})
engine_after (ok _) (ok _) s = (record s { engines = suc s.engines }, ok tt)
engine_after (ok _) (fail e) s = (s, fail e)
engine_after (ok _) panic s = (record s { engines = suc s.engines }, panic)
engine_after (fail e) _ s = (s, fail e)
engine_after panic _ s = (s, panic)

-- `NewService`.
unfoldable pub new_service : World → Options → InhiveInstance → InhiveInstance × Outcome (Unit {0})
new_service w options s = engine_after (w.check_options options) (w.start_engine options) s

unfoldable pub last_port : List ℕ → ℕ → ℕ
last_port [] port = port
last_port (p ∷ ps) port = last_port ps p

-- `StartService` once the engine runs.
unfoldable pub launched : World → Options → InhiveInstance → InhiveInstance × Reply
unfolding set_core_status last_port
launched w options s =
    let up = record s {
      service = true;
      box = suc s.box;
      listen_port = last_port (w.socks_ports options) s.listen_port;
      mode_watcher = if w.has_instance && not w.is_ios then true else s.mode_watcher;
      mem_sampler = if w.has_instance then true else s.mem_sampler;
    } in
    (set_core_status started empty "" up, (info started empty "", none))

-- What a call returns to its caller after an error, or after a panic that the deferred function recovers.
abbrev pub settle :
    {A : Type 0}
    → MessageType
    → InhiveInstance
    → Outcome A
    → (A → InhiveInstance × Reply)
    → InhiveInstance × Reply
settle kind s (ok a) next = next a
settle kind s (fail e) next = error_wrapper kind e s
settle kind s panic next = error_wrapper unexpected_error "panic" s

abbrev pub cleared : InhiveInstance × Reply → InhiveInstance × Reply
cleared r = (clear_start_cancel r.0, r.1)

-- `StartService` from the call of `NewService` on.
unfoldable pub start_engine_of : World → Options → InhiveInstance → InhiveInstance × Reply
unfolding new_service launched
start_engine_of w options s =
    let made = new_service w options s in
    settle start_service_failed made.0 made.1 (λ _. launched w options made.0)

-- `StartService` from the built configuration on.
unfoldable pub start_built :
    World → StartRequest → Options → InhiveInstance → InhiveInstance × Reply
unfolding start_engine_of
start_built w r options s =
    settle error_building_config s (if s.debug then w.marshal options else ok tt) (λ _.
      settle unexpected_error s w.register_platform (λ _. cleared (
        start_engine_of w options
          (set_start_cancel (record s { memory_limit = w.is_ios || not r.disable_memory_limit })))))

-- `StartService` with the request that is in force.
unfoldable pub start_requested : World → StartRequest → InhiveInstance → InhiveInstance × Reply
unfolding built start_built
start_requested w r s =
    let named = record s {
      previous_start_request = some r;
      last_start_name = some r.config_name;
    } in
    settle error_building_config named (built w s.inhive_options r)
      (λ options. start_built w r options named)

abbrev pub is_stopped : CoreStates → Bool
is_stopped stopped = true
is_stopped _ = false

unfoldable pub start_service :
    World → Outcome StartRequest → InhiveInstance → InhiveInstance × Reply
unfolding start_requested
start_service w loaded s =
    if not (is_stopped s.core_state)
    then (s, (info s.core_state already_started "instance already started", none))
    else (let beginning = set_core_status starting empty "" s in
        settle error_building_config beginning loaded (λ r. start_requested w r beginning))

-- What `StartService` does to the table: it saves a request after its configuration has been built.
unfoldable pub start_stored :
    {S : Type 0} → Table S → World → S → Option StartRequest → InhiveInstance → S
start_stored t w store request s =
    if not (is_stopped s.core_state)
    then store
    else elim (load_last_start_request_if_needed t store request) [
      | Outcome.ok r ↦ elim (built w s.inhive_options r) [
        | Outcome.ok options ↦ (save_last_start_request t store r).0
        | Outcome.fail e ↦ store
        | Outcome.panic ↦ store
      ]
      | Outcome.fail e ↦ store
      | Outcome.panic ↦ store
    ]

-- `Stop` once `CloseService` has answered. A panic is recovered with the service still in its field, so
-- the error closes it again; that second call is taken to return.
unfoldable pub stop_closed : Outcome (Unit {0}) → InhiveInstance → InhiveInstance × Reply
unfolding set_core_status error_wrapper
stop_closed (ok u) s =
    let down = record s { service = false; engines = s.engines - 1 } in
    (set_core_status stopped empty "" down, (info stopped empty "", none))
stop_closed (fail e) s =
    error_wrapper unexpected_error e (record s { service = false; engines = s.engines - 1 })
stop_closed panic s = error_wrapper unexpected_error "panic" s

-- `Stop` up to its look at the service.
abbrev pub quieted : InhiveInstance → InhiveInstance
quieted s =
    reset_pause_state
      (record (set_core_status stopping empty "" s) { mode_watcher = false; mem_sampler = false })

-- `Stop`, under the lock.
unfoldable pub stop : World → InhiveInstance → InhiveInstance × Reply
unfolding set_core_status reset_pause_state stop_closed
stop w s =
    let quiet = quieted s in
    if not quiet.service
    then (set_core_status stopped already_stopped "" quiet, (info stopped already_stopped "", none))
    else stop_closed w.close_service quiet
