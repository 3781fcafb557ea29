-- ===== src/Hcore/Pause/Probes.antt =====
-- When the pooled connections are probed.
use inhive_core.Prelude.{true, false, some, ◌≡◌, refl, arith, ◌+◌, ◌≤◌, ◌↔◌}
use inhive_core.Hcore.State.{InhiveInstance, Moment}
use inhive_core.Hcore.Service.{World}
use inhive_core.Hcore.Pause.{
  has_box, wake, maybe_probe_after_frozen_sleep, frozen_since, should_probe_after_sleep,
  wake_probe_min_frozen,
}

-- The device wakes `now`, at least two minutes of wall time after `paused` in which the process did not
-- run.
abbrev pub FrozenLong : Moment → Moment → Type 0
FrozenLong paused now =
    (paused.wall + (now.monotonic + wake_probe_min_frozen)) ≤ (now.wall + paused.monotonic)

-- A wake after a pause, with a running engine, probes exactly if the process was frozen for two minutes.
-- It forgets the pause, so the next wake does not probe.
pub wake-FrozenLong :
    (w w' : World) (s : InhiveInstance) (paused now later : Moment)
    → s.paused_at ≡ some paused
    → has_box w s ≡ true
    → (((wake w now s).1 ≡ true) ↔ FrozenLong paused now)
      × ((wake w' later (wake w now s).0).1 ≡ false)
unfolding wake maybe_probe_after_frozen_sleep should_probe_after_sleep frozen_since
wake-FrozenLong w w' s paused now later p b = rw (p, b) (ground arith, refl)
