-- ===== src/Hcore/Service/Sound.antt =====
-- The state is sound after any sequence of calls.
use inhive_core.Prelude.{
  ℕ, Bool, true, false, false≢true, ◌&&◌, List, [], ◌∷◌, Option, none, some, ◌≡◌, refl, sym, ◌∙◌,
  arith, ◌-◌, All, if_case, not, Outcome, panic, ok, fail, Bool-cases, inl, inr,
}
use inhive_core.Config.Settings.{InhiveOptions}
use inhive_core.Hcore.State.{
  Moment, InhiveInstance, Reply, set_core_status, reset_pause_state, unexpected_error,
}
use inhive_core.Hcore.Service.{World, stop, stop_closed, quieted}
use inhive_core.Hcore.Pause.{has_box, pause, wake, maybe_probe_after_frozen_sleep}
use inhive_core.Hcore.Service.Calls.{
  IsSound, Call, start_call, stop_call, alert_call, pause_call, wake_call, perform, Quiet, run,
  static,
}
use inhive_core.Hcore.Service.Starts.{
  IsDown-IsSound, stop_and_alert-IsDown, error_wrapper-IsDown, start_service-IsSound,
}

stop_closed-IsSound :
    (r : Outcome (Unit {0})) (s : InhiveInstance)
    → s.service ≡ true
    → s.engines ≡ 1
    → s.mode_watcher ≡ false
    → s.paused_at ≡ none
    → s.end_pause_timer ≡ none
    → s.start_cancel ≡ false
    → IsSound (stop_closed r s).0
unfolding stop_closed set_core_status
stop_closed-IsSound (ok u) s up one watch pause timer cancel =
    IsDown-IsSound
      (record {
        off = refl;
        none_left = omega (arith, one);
        halted = refl;
        no_timer = timer;
        no_pause = pause;
      })
      cancel
stop_closed-IsSound (fail e) s up one watch pause timer cancel =
    let down = record s { service = false; engines = s.engines - 1 } in
    let (d, c) = error_wrapper-IsDown unexpected_error e down (omega (arith, one)) in
    IsDown-IsSound d (c ∙ cancel)
stop_closed-IsSound panic s up one watch pause timer cancel =
    let (d, c) = error_wrapper-IsDown unexpected_error "panic" s (rw (up) one) in
    IsDown-IsSound d (c ∙ cancel)

stop-IsSound : (w : World) (s : InhiveInstance) → IsSound s → IsSound (stop w s).0
unfolding stop set_core_status reset_pause_state
stop-IsSound w s h =
    if_case (λ (r : InhiveInstance × Reply). IsSound r.0) (not s.service) _ _
      (λ down.
        let off : s.service ≡ false = ground (arith, down) in
        IsDown-IsSound
          (record {
            off = off;
            none_left = rw off at h.engine;
            halted = refl;
            no_timer = refl;
            no_pause = refl;
          })
          h.uncancelled)
      (λ running.
        let up : s.service ≡ true = ground (arith, running) in
        stop_closed-IsSound w.close_service (quieted s) up (rw up at h.engine) refl refl refl
          h.uncancelled)

pause-IsSound :
    (w : World) (now : Moment) (s : InhiveInstance) → IsSound s → IsSound (pause w now s)
unfolding pause
pause-IsSound w now s h = elim (Bool-cases (has_box w s && w.has_manager)) [
  | inr off ↦ rw (off) h
  | inl on ↦ rw (on) (record {
    phase = h.phase;
    engine = h.engine;
    uncancelled = h.uncancelled;
    timer = λ m e. elim (Bool-cases w.is_ios) [
      | inl ios ↦ (sym (some_same (rw ios at e)), up on)
      | inr other ↦ h.timer m (rw other at e)
    ];
    unpaused = λ e. absurd (false≢true (sym e ∙ up on));
  })
]
  where
    some_same : {m n : ℕ} → some m ≡ some n → m ≡ n
    some_same e = cc

    up : (has_box w s && w.has_manager) ≡ true → s.service ≡ true
    up on = ground arith

perform-IsSound : (c : Call) (s : InhiveInstance) → Quiet c → IsSound s → IsSound (perform c s)
perform-IsSound (start_call w loaded) s q h = start_service-IsSound w loaded s q h
perform-IsSound (stop_call w) s q h = stop-IsSound w s h
perform-IsSound (alert_call kind message) s q h =
    let (d, c) = stop_and_alert-IsDown kind message s h.engine in
    IsDown-IsSound d (c ∙ h.uncancelled)
perform-IsSound (pause_call w now) s q h = pause-IsSound w now s h
perform-IsSound (wake_call w now) s q h =
    unfold wake in
    unfold maybe_probe_after_frozen_sleep in
    record {
      phase = h.phase;
      engine = h.engine;
      uncancelled = h.uncancelled;
      timer = h.timer;
      unpaused = λ e. refl;
    }

run-IsSound_from :
    (cs : List Call) (s : InhiveInstance) → All Quiet cs → IsSound s → IsSound (run cs s)
run-IsSound_from [] s q h = h
run-IsSound_from (c ∷ cs) s q h = run-IsSound_from cs (perform c s) q.1 (perform-IsSound c s q.0 h)

-- If no engine panics while it starts, then after any sequence of starts, stops, emergency stops, pauses
-- and wakes the state is sound: the core is started exactly if it has a service, there is one engine
-- with a service and none without, no start is left to cancel, a pause is remembered only with a
-- service, and a pause timer wakes the running engine.
pub run-IsSound :
    (cs : List Call) (options : Option InhiveOptions) (debug : Bool)
    → All Quiet cs
    → IsSound (run cs (static options debug))
run-IsSound cs options debug q = run-IsSound_from cs (static options debug) q (record {
  phase = refl;
  engine = refl;
  uncancelled = refl;
  timer = λ m e. cc;
  unpaused = λ e. refl;
})
