-- ===== src/Hcore/Service/Starts.antt =====
-- An emergency stop, and a start of a stopped core, end in a sound state.
use inhive_core.Prelude.{
  String, true, false, false≢true, none, Outcome, ok, fail, panic, ◌≡◌, ◌≢◌, refl, sym, ◌∙◌, arith,
  if◌then◌else◌, suc, Option-cases, Bool-cases, inl, inr,
}
use inhive_core.Config.SingBox.{Options}
use inhive_core.Hcore.State.{
  CoreStates, stopped, starting, started, stopping, MessageType, StartRequest, InhiveInstance,
  Reply, set_core_status, set_start_cancel, clear_start_cancel, reset_pause_state, drop_service,
  stop_and_alert, error_wrapper, empty, unexpected_error, start_service_failed,
  error_building_config,
}
use inhive_core.Hcore.Service.{
  World, built, new_service, launched, settle, cleared, start_built, start_requested, start_service,
  is_stopped, start_engine_of, engine_after,
}
use inhive_core.Hcore.Service.Calls.{IsSound, NoPanic, Fine}

-- What is left after an emergency stop.
pub record IsDown (s : InhiveInstance) : Type 0 where
  pub off : s.service ≡ false
  pub none_left : s.engines ≡ 0
  pub halted : s.core_state ≡ stopped
  pub no_timer : s.end_pause_timer ≡ none
  pub no_pause : s.paused_at ≡ none

pub IsDown-IsSound : {s : InhiveInstance} → IsDown s → s.start_cancel ≡ false → IsSound s
IsDown-IsSound d c = record {
  phase = rw (d.off) d.halted;
  engine = rw (d.off) d.none_left;
  uncancelled = c;
  timer = λ m e. cc (d.no_timer, e);
  unpaused = λ e. d.no_pause;
}

pub stop_and_alert-IsDown :
    (kind : MessageType) (message : String) (s : InhiveInstance)
    → s.engines ≡ (if s.service then 1 else 0)
    → IsDown (stop_and_alert kind message s)
      × ((stop_and_alert kind message s).start_cancel ≡ s.start_cancel)
unfolding stop_and_alert drop_service reset_pause_state set_core_status
stop_and_alert-IsDown kind message s e = elim (Bool-cases s.service) [
  | inl up ↦
      let one : s.engines ≡ 1 = rw up at e in
      rw (up) (
        record {
          off = refl;
          none_left = omega arith;
          halted = refl;
          no_timer = refl;
          no_pause = refl;
        },
        refl,
      )
  | inr down ↦
      let zero_left : s.engines ≡ 0 = rw down at e in
      rw (down) (
        record {
          off = refl;
          none_left = zero_left;
          halted = refl;
          no_timer = refl;
          no_pause = refl;
        },
        refl,
      )
]

pub error_wrapper-IsDown :
    (kind : MessageType) (message : String) (s : InhiveInstance)
    → s.engines ≡ (if s.service then 1 else 0)
    → IsDown (error_wrapper kind message s).0
      × ((error_wrapper kind message s).0.start_cancel ≡ s.start_cancel)
unfolding error_wrapper set_core_status
error_wrapper-IsDown kind message s e =
    let (d, c) = stop_and_alert-IsDown unexpected_error message s e in
    (
      record {
        off = d.off;
        none_left = d.none_left;
        halted = refl;
        no_timer = d.no_timer;
        no_pause = d.no_pause;
      },
      c,
    )

-- A stopped core before its engine is made: nothing is left of an earlier one.
abbrev IsBare : InhiveInstance → Type 0
IsBare s = (s.service ≡ false) × (s.engines ≡ 0) × (s.end_pause_timer ≡ none) × (s.paused_at ≡ none)

module _ (P : InhiveInstance × Reply → Type 0) where
  settle-both :
      {A : Type 0} (kind : MessageType) (s : InhiveInstance) (m : Outcome A)
      (next : A → InhiveInstance × Reply)
      → ((k : MessageType) (e : String) → P (error_wrapper k e s))
      → ((a : A) → P (next a))
      → P (settle kind s m next)
  settle-both kind s (ok a) next h k = k a
  settle-both kind s (fail e) next h k = h kind e
  settle-both kind s panic next h k = h unexpected_error "panic"

error_bare :
    (s : InhiveInstance)
    → IsBare s
    → s.start_cancel ≡ false
    → (k : MessageType) (e : String) → IsSound (error_wrapper k e s).0
error_bare s b c k e =
    let (d, c') = error_wrapper-IsDown k e s (rw (b.0) b.1) in IsDown-IsSound d (c' ∙ c)

launched-IsSound :
    (w : World) (options : Options) (s : InhiveInstance)
    → s.engines ≡ 1
    → s.end_pause_timer ≡ none
    → IsSound (clear_start_cancel (launched w options s).0)
unfolding launched set_core_status clear_start_cancel
launched-IsSound w options s one t = record {
  phase = refl;
  engine = one;
  uncancelled = refl;
  timer = λ m e. cc (t, e);
  unpaused = λ e. cc;
}

cleared_error :
    (s : InhiveInstance)
    → IsBare s
    → (k : MessageType) (e : String) → IsSound (clear_start_cancel (error_wrapper k e s).0)
unfolding clear_start_cancel
cleared_error s b k e =
    let (d, c') = error_wrapper-IsDown k e s (rw (b.0) b.1) in
    IsDown-IsSound
      (record {
        off = d.off;
        none_left = d.none_left;
        halted = d.halted;
        no_timer = d.no_timer;
        no_pause = d.no_pause;
      })
      refl

start_engine_of-IsSound :
    (w : World) (options : Options) (s : InhiveInstance)
    → NoPanic w
    → IsBare s
    → IsSound (cleared (start_engine_of w options s)).0
unfolding start_engine_of new_service engine_after
start_engine_of-IsSound w options s calm b =
    go (w.check_options options) (w.start_engine options) (calm options)
  where
    go :
        (c e : Outcome (Unit {0}))
        → e ≢ panic
        → let made = engine_after c e s in
          IsSound
            (cleared (settle start_service_failed made.0 made.1 (λ _. launched w options made.0))).0
    go (ok _) (ok _) h =
        launched-IsSound w options (record s { engines = suc s.engines }) (rw (b.1)) b.2
    go (ok _) (fail e) h = cleared_error s b start_service_failed e
    go (ok _) panic h = absurd (h refl)
    go (fail e) _ h = cleared_error s b start_service_failed e
    go panic _ h = cleared_error s b unexpected_error "panic"

start_requested-IsSound :
    (w : World) (r : StartRequest) (s : InhiveInstance)
    → NoPanic w
    → IsBare s
    → s.start_cancel ≡ false
    → IsSound (start_requested w r s).0
unfolding start_requested start_built set_start_cancel
start_requested-IsSound w r s calm b c =
    settle-both Fine error_building_config _ (built w s.inhive_options r) _
      (λ k e. error_bare _ b c k e)
      (λ options.
        settle-both Fine error_building_config _ _ _ (λ k e. error_bare _ b c k e)
          (λ _.
            settle-both Fine unexpected_error _ w.register_platform _ (λ k e. error_bare _ b c k e)
              (λ _. start_engine_of-IsSound w options _ calm b)))

IsSound-IsBare : (s : InhiveInstance) → IsSound s → s.core_state ≡ stopped → IsBare s
IsSound-IsBare s h off = (
  off_service,
  rw off_service at h.engine,
  elim (Option-cases s.end_pause_timer) [
    | inl unset ↦ unset
    | inr (m, set) ↦ absurd (false≢true (sym off_service ∙ (h.timer m set).1))
  ],
  h.unpaused off_service,
)
  where
    off_service : s.service ≡ false
    off_service = elim (Bool-cases s.service) [
      | inl up ↦ cc (off, rw up at h.phase)
      | inr down ↦ down
    ]

is_stopped-eq : (c : CoreStates) → is_stopped c ≡ true → c ≡ stopped
is_stopped-eq stopped e = refl
is_stopped-eq starting e = cc
is_stopped-eq started e = cc
is_stopped-eq stopping e = cc

pub start_service-IsSound :
    (w : World) (loaded : Outcome StartRequest) (s : InhiveInstance)
    → NoPanic w
    → IsSound s
    → IsSound (start_service w loaded s).0
unfolding start_service set_core_status
start_service-IsSound w loaded s calm h = elim (Bool-cases (is_stopped s.core_state)) [
  | inr busy ↦ rw (busy) h
  | inl off ↦
      let b = IsSound-IsBare s h (is_stopped-eq s.core_state off) in
      let beginning = set_core_status starting empty "" s in
      let begun =
        settle-both Fine error_building_config beginning loaded (λ r. start_requested w r beginning)
          (λ k e. error_bare beginning b h.uncancelled k e)
          (λ r. start_requested-IsSound w r beginning calm b h.uncancelled) in
      rw (off) begun
]
