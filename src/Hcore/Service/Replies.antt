-- ===== src/Hcore/Service/Replies.antt =====
-- What a start tells its caller, and what it does to the table.
use inhive_core.Prelude.{
  ℕ, arith, if_case, ◌-◌, Option, String, true, false, not, none, some, Outcome, ok, fail, panic,
  ◌≡◌, refl, sym, ap, subst, if◌then◌else◌, Bool-cases, inl, inr, ◌⊎◌,
}
use inhive_core.Config.SingBox.{Options}
use inhive_core.Hcore.State.{
  stopped, starting, started, MessageType, StartRequest, InhiveInstance, Reply, set_core_status,
  stop_and_alert, error_wrapper, empty, drop_service, reset_pause_state, unexpected_error,
  clear_start_cancel, error_building_config, start_service_failed, info, already_started,
}
use inhive_core.Hcore.LastStart.{
  Table, save_last_start_request, load_last_start_request_if_needed, is_empty_request,
}
use inhive_core.Hcore.Service.{
  World, built, new_service, launched, settle, cleared, start_built, start_requested, start_service,
  start_stored, is_stopped, start_engine_of, stop, stop_closed, quieted,
}

-- The reply is of a start that succeeded, or of one that failed and left nothing running.
abbrev pub Settled : InhiveInstance × Reply → Type 0
Settled r =
    (r.1.0.core_state ≡ r.0.core_state)
    × (((r.0.core_state ≡ started) × (r.1.1 ≡ none) × (r.0.service ≡ true))
        ⊎ ((r.0.core_state ≡ stopped) × (e : String) × (r.1.1 ≡ some e) × (r.0.service ≡ false)))

error_wrapper-Settled :
    (kind : MessageType) (message : String) (s : InhiveInstance)
    → Settled (error_wrapper kind message s)
unfolding error_wrapper set_core_status stop_and_alert drop_service reset_pause_state
error_wrapper-Settled kind message s = elim (Bool-cases s.service) [
  | inl up ↦ rw (up) (refl, inr (refl, message, refl, refl))
  | inr down ↦ rw (down) (refl, inr (refl, message, refl, refl))
]

settle-Settled :
    {A : Type 0} (kind : MessageType) (s : InhiveInstance) (m : Outcome A)
    (next : A → InhiveInstance × Reply)
    → ((a : A) → Settled (next a))
    → Settled (settle kind s m next)
settle-Settled kind s (ok a) next h = h a
settle-Settled kind s (fail e) next h = error_wrapper-Settled kind e s
settle-Settled kind s panic next h = error_wrapper-Settled unexpected_error "panic" s

cleared-Settled : (r : InhiveInstance × Reply) → Settled r → Settled (cleared r)
unfolding clear_start_cancel
cleared-Settled r h = h

launched-Settled :
    (w : World) (options : Options) (s : InhiveInstance) → Settled (launched w options s)
unfolding launched set_core_status
launched-Settled w options s = (refl, inl (refl, refl, refl))

start_engine_of-Settled :
    (w : World) (options : Options) (s : InhiveInstance) → Settled (start_engine_of w options s)
unfolding start_engine_of
start_engine_of-Settled w options s =
    let made = new_service w options s in
    settle-Settled start_service_failed made.0 made.1 (λ _. launched w options made.0)
      (λ _. launched-Settled w options made.0)

start_built-Settled :
    (w : World) (r : StartRequest) (options : Options) (s : InhiveInstance)
    → Settled (start_built w r options s)
unfolding start_built
start_built-Settled w r options s = settle-Settled error_building_config s _ _ (λ _.
    settle-Settled unexpected_error s w.register_platform _
      (λ _. cleared-Settled (start_engine_of w options _) (start_engine_of-Settled w options _)))

start_requested-Settled :
    (w : World) (r : StartRequest) (s : InhiveInstance) → Settled (start_requested w r s)
unfolding start_requested
start_requested-Settled w r s =
    settle-Settled error_building_config _ (built w s.inhive_options r) _
      (λ options. start_built-Settled w r options _)

-- A start of a stopped core ends in one of two ways, whatever fails or panics in between: without an
-- error, and then the core is started and has a service; or with an error, and then it is stopped and
-- has none. The reply carries the state the core is in.
pub start_service-Settled :
    (w : World) (loaded : Outcome StartRequest) (s : InhiveInstance)
    → s.core_state ≡ stopped
    → Settled (start_service w loaded s)
unfolding start_service
start_service-Settled w loaded s off =
    let beginning = set_core_status starting empty "" s in
    let begun =
      settle-Settled error_building_config beginning loaded (λ r. start_requested w r beginning)
        (λ r. start_requested-Settled w r beginning) in
    subst
      (λ b. Settled (
        if b
        then (s, (info s.core_state already_started "instance already started", none))
        else settle error_building_config beginning loaded (λ r. start_requested w r beginning)))
      (sym (ap (λ c. not (is_stopped c)) off)) begun

-- A request for pings only that has a configuration leaves the table of the last start as it is, whatever
-- comes of the start.
pub start_stored-ping_only :
    {S : Type 0} (t : Table S) (w : World) (store : S) (r : StartRequest) (s : InhiveInstance)
    → r.ping_only ≡ true
    → is_empty_request r ≡ false
    → start_stored t w store (some r) s ≡ store
unfolding start_stored load_last_start_request_if_needed save_last_start_request
start_stored-ping_only t w store r s ping full = elim (Bool-cases (is_stopped s.core_state)) [
  | inr busy ↦ rw (busy)
  | inl off ↦ rw (off, full) (go (built w s.inhive_options r))
]
  where
    go :
        (m : Outcome Options)
        → elim m [
          | Outcome.ok options ↦ (save_last_start_request t store r).0
          | Outcome.fail e ↦ store
          | Outcome.panic ↦ store
        ]
          ≡ store
    go (ok options) = rw (ping)
    go (fail e) = refl
    go panic = refl

-- The error of closing a service; a panic is recovered as one.
abbrev pub close_error : Outcome (Unit {0}) → Option String
close_error (ok u) = none
close_error (fail e) = some e
close_error panic = some "panic"

-- A stopped core, with as many engines as given, and with the error of the reply.
abbrev pub IsQuiet : ℕ → Option String → InhiveInstance × Reply → Type 0
IsQuiet engines error r =
    (r.0.core_state ≡ stopped)
    × (r.0.service ≡ false)
    × (r.0.engines ≡ engines)
    × (r.0.mode_watcher ≡ false)
    × (r.0.mem_sampler ≡ false)
    × (r.0.paused_at ≡ none)
    × (r.0.end_pause_timer ≡ none)
    × (r.1.0.core_state ≡ stopped)
    × (r.1.1 ≡ error)

stop_closed-IsQuiet :
    (r : Outcome (Unit {0})) (s : InhiveInstance)
    → s.service ≡ true
    → s.mode_watcher ≡ false
    → s.mem_sampler ≡ false
    → s.paused_at ≡ none
    → s.end_pause_timer ≡ none
    → IsQuiet (s.engines - 1) (close_error r) (stop_closed r s)
unfolding stop_closed set_core_status reset_pause_state error_wrapper stop_and_alert drop_service
stop_closed-IsQuiet (ok u) s up watch sample pause timer =
    (refl, refl, refl, watch, sample, pause, timer, refl, refl)
stop_closed-IsQuiet (fail e) s up watch sample pause timer =
    (refl, refl, refl, watch, sample, refl, refl, refl, refl)
stop_closed-IsQuiet panic s up watch sample pause timer =
    rw (up) (refl, refl, refl, watch, sample, refl, refl, refl, refl)

-- After a stop no service, watcher, sampler, pause or timer is left. If there was a service, then one
-- engine fewer runs, and the error is the one that closing the service gave, or a recovered panic;
-- otherwise as many engines run as before, and there is no error.
pub stop-IsQuiet :
    (w : World) (s : InhiveInstance)
    → IsQuiet
        (if s.service then s.engines - 1 else s.engines)
        (if s.service then close_error w.close_service else none)
        (stop w s)
unfolding stop set_core_status reset_pause_state
stop-IsQuiet w s =
    if_case
      (IsQuiet (if s.service then s.engines - 1 else s.engines)
        (if s.service then close_error w.close_service else none))
      (not s.service) _ _
      (λ down.
        let off : s.service ≡ false = ground (arith, down) in
        (
          refl,
          off,
          ap (λ b. if b then s.engines - 1 else s.engines) (sym off),
          refl,
          refl,
          refl,
          refl,
          refl,
          ap (λ b. if b then close_error w.close_service else none) (sym off),
        ))
      (λ running.
        let up : s.service ≡ true = ground (arith, running) in
        let quiet = stop_closed-IsQuiet w.close_service (quieted s) up refl refl refl refl in
        subst
          (λ b.
            IsQuiet (if b then s.engines - 1 else s.engines)
              (if b then close_error w.close_service else none)
              (stop_closed w.close_service (quieted s)))
          (sym up) quiet)
