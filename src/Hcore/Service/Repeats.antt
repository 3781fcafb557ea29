-- ===== src/Hcore/Service/Repeats.antt =====
-- A start without a configuration repeats the last start that was stored.
use inhive_core.Prelude.{
  String, false, none, some, Outcome, ok, fail, panic, ◌≡◌, refl, sym, ap, ◌∙◌, subst, Bool-cases,
  inl, inr,
}
use inhive_core.Config.SingBox.{Options}
use inhive_core.Hcore.State.{
  stopped, starting, empty, MessageType, StartRequest, InhiveInstance, Reply, set_core_status,
  stop_and_alert, error_wrapper, drop_service, reset_pause_state, set_start_cancel,
  clear_start_cancel, unexpected_error, error_building_config, start_service_failed,
}
use inhive_core.Hcore.LastStart.{
  Table, save_last_start_request, load_last_start_request_if_needed, is_empty_request,
}
use inhive_core.Hcore.LastStart.Replay.{IsTable, replayed, save-load}
use inhive_core.Hcore.Service.{
  World, built, new_service, engine_after, launched, settle, start_engine_of, start_built,
  start_requested, start_service, start_stored, is_stopped,
}

module _ (q : StartRequest) where
  abbrev InForce : InhiveInstance × Reply → Type 0
  InForce r = r.0.previous_start_request ≡ some q

  error_wrapper-InForce :
      (kind : MessageType) (message : String) (s : InhiveInstance)
      → s.previous_start_request ≡ some q
      → InForce (error_wrapper kind message s)
  unfolding error_wrapper stop_and_alert set_core_status drop_service reset_pause_state
  error_wrapper-InForce kind message s e = elim (Bool-cases s.service) [
    | inl up ↦ rw (up) e
    | inr down ↦ rw (down) e
  ]

  settle-InForce :
      {A : Type 0} (kind : MessageType) (s : InhiveInstance) (m : Outcome A)
      (next : A → InhiveInstance × Reply)
      → s.previous_start_request ≡ some q
      → ((a : A) → InForce (next a))
      → InForce (settle kind s m next)
  settle-InForce kind s (ok a) next e h = h a
  settle-InForce kind s (fail x) next e h = error_wrapper-InForce kind x s e
  settle-InForce kind s panic next e h = error_wrapper-InForce unexpected_error "panic" s e

  start_engine_of-InForce :
      (w : World) (options : Options) (s : InhiveInstance)
      → s.previous_start_request ≡ some q
      → InForce (start_engine_of w options s)
  unfolding start_engine_of new_service launched set_core_status
  start_engine_of-InForce w options s e =
      let made = engine_after (w.check_options options) (w.start_engine options) s in
      let kept = same_request (w.check_options options) (w.start_engine options) in
      settle-InForce start_service_failed made.0 made.1 (λ _. launched w options made.0) kept
        (λ _. kept)
    where
      same_request :
          (c d : Outcome (Unit {0})) → (engine_after c d s).0.previous_start_request ≡ some q
      same_request (ok _) (ok _) = unfold engine_after in e
      same_request (ok _) (fail x) = unfold engine_after in e
      same_request (ok _) panic = unfold engine_after in e
      same_request (fail x) _ = unfold engine_after in e
      same_request panic _ = unfold engine_after in e

  start_built-InForce :
      (w : World) (r : StartRequest) (options : Options) (s : InhiveInstance)
      → s.previous_start_request ≡ some q
      → InForce (start_built w r options s)
  unfolding start_built set_start_cancel clear_start_cancel
  start_built-InForce w r options s e = settle-InForce error_building_config s _ _ e (λ _.
      settle-InForce unexpected_error s w.register_platform _ e
        (λ _. start_engine_of-InForce w options _ e))

start_requested-InForce :
    (w : World) (r : StartRequest) (s : InhiveInstance) → InForce r (start_requested w r s)
unfolding start_requested
start_requested-InForce w r s =
    settle-InForce r error_building_config _ (built w s.inhive_options r) _ refl
      (λ options. start_built-InForce r w r options _ refl)

-- If the configuration of a request that is not for pings only is built, and the request is stored
-- without an error, then a later start without a request has its path, content and name in force, read
-- as a raw configuration, whatever else fails in either start.
pub start_service-replayed :
    {S : Type 0} (t : Table S) (w w' : World) (store : S) (r : StartRequest) (s s' : InhiveInstance)
    {options : Options}
    → IsTable t
    → s.core_state ≡ stopped
    → s'.core_state ≡ stopped
    → r.ping_only ≡ false
    → is_empty_request r ≡ false
    → built w s.inhive_options r ≡ ok options
    → (save_last_start_request t store r).1 ≡ none
    → let loaded = load_last_start_request_if_needed t (start_stored t w store (some r) s) none in
      (start_service w' loaded s').0.previous_start_request ≡ some (replayed r)
unfolding start_service start_stored load_last_start_request_if_needed
start_service-replayed t w w' store r s s' law off off' real full made saved =
    let stored : start_stored t w store (some r) s ≡ (save_last_start_request t store r).0 =
      rw (ap is_stopped off, full, made) in
    let blank = record r { config_path = ""; config_content = "" } in
    let read =
      ap (λ x. load_last_start_request_if_needed t x none) stored
      ∙ (save-load t law store r blank real full refl saved).0 in
    let begun = start_requested-InForce w' (replayed r) (set_core_status starting empty "" s') in
    subst (λ x. (start_service w' x s').0.previous_start_request ≡ some (replayed r)) (sym read)
      (rw (ap is_stopped off') begun)
