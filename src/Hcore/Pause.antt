-- ===== src/Hcore/Pause.antt =====
-- v2/hcore/pause.go: the pause of the engine while the device sleeps, and the decision to probe the pooled
-- connections after it. Times are in nanoseconds.
pub mod Probes
use inhive_core.Prelude.{
  ℕ, Bool, true, false, not, ◌&&◌, ◌||◌, Option, none, some, if◌then◌else◌, leb, ◌+◌, ◌-◌,
}
use inhive_core.Hcore.State.{InhiveInstance, Moment}
use inhive_core.Hcore.Service.{World}

abbrev pub wake_probe_min_frozen : ℕ
wake_probe_min_frozen = 120000000000

-- `static.Box()` and the like: the service is set and has an instance.
abbrev pub has_box : World → InhiveInstance → Bool
has_box w s = s.service && w.has_instance

unfoldable pub pause : World → Moment → InhiveInstance → InhiveInstance
pause w now s =
    if has_box w s && w.has_manager
    then record s {
      paused_at = some now;
      end_pause_timer = if w.is_ios then some s.box else s.end_pause_timer;
    }
    else s

-- The wall time since the pause and the part of it in which the process did not run, both 0 at least.
unfoldable pub frozen_since : Moment → Moment → ℕ × ℕ
frozen_since paused now =
    (now.wall - paused.wall, (now.wall + paused.monotonic) - (paused.wall + now.monotonic))

unfoldable pub should_probe_after_sleep : ℕ → Bool
should_probe_after_sleep frozen = leb wake_probe_min_frozen frozen

-- The state after `maybeProbeAfterFrozenSleep`, and whether it starts a probe.
unfoldable pub maybe_probe_after_frozen_sleep :
    World → Moment → InhiveInstance → InhiveInstance × Bool
unfolding frozen_since should_probe_after_sleep
maybe_probe_after_frozen_sleep w now s = (record s { paused_at = none }, decide s.paused_at)
  where
    decide : Option Moment → Bool
    decide none = false
    decide (some paused) = should_probe_after_sleep (frozen_since paused now).1 && has_box w s

-- `Wake`; the wake of the manager is outside the state.
unfoldable pub wake : World → Moment → InhiveInstance → InhiveInstance × Bool
unfolding maybe_probe_after_frozen_sleep
wake w now s = maybe_probe_after_frozen_sleep w now s
