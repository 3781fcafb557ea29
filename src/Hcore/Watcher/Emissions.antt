-- ===== src/Hcore/Watcher/Emissions.antt =====
-- How often the watcher recommends mode 2.
use inhive_core.Prelude.{
  ℕ, false, List, [], ◌∷◌, Option, none, some, ◌≡◌, refl, arith, ◌==◌, ◌≤◌, ◌+◌, Bool-cases, inl,
  inr,
}
use inhive_core.Hcore.Watcher.{
  Cycle, Watch, fresh_watch, watch_cycle, run_mode_watcher, mode_watcher_debounce, too_soon,
  should_recommend_mode_two, append_bounded, is_cycle_failed, mode_watcher_window, next_streak,
}

-- Each time is at least the debounce after the one before it; the newest stands first.
abbrev pub Spaced : List ℕ → Type 0
Spaced [] = Unit
Spaced (t ∷ []) = Unit
Spaced (t ∷ s ∷ ts) = (s + mode_watcher_debounce ≤ t) × Spaced (s ∷ ts)

-- In a cycle the clock is read for the test before it is read for the emission.
abbrev pub Ordered : List Cycle → Type 0
Ordered [] = Unit
Ordered (c ∷ cs) = (c.checked_at ≤ c.emitted_at) × Ordered cs

abbrev newest : List ℕ → Option ℕ
newest [] = none
newest (t ∷ ts) = some t

record IsSpaced (w : Watch) : Type 0 where
  kept : w.last_emit ≡ newest w.emissions
  spaced : Spaced w.emissions

some_inj : {a b : ℕ} → some a ≡ some b → a ≡ b
some_inj e = cc

Spaced-next :
    (last : Option ℕ) (ts : List ℕ) (checked emitted : ℕ)
    → last ≡ newest ts
    → Spaced ts
    → too_soon last checked ≡ false
    → checked ≤ emitted
    → Spaced (emitted ∷ ts)
Spaced-next last [] checked emitted k s h le = tt
Spaced-next none (t ∷ ts) checked emitted k s h le = cc
Spaced-next (some l) (t ∷ ts) checked emitted k s h le = (grind (arith, some_inj k), s)

watch_cycle-IsSpaced :
    (w : Watch) (c : Cycle) → c.checked_at ≤ c.emitted_at → IsSpaced w → IsSpaced (watch_cycle w c)
unfolding watch_cycle
watch_cycle-IsSpaced w c le h =
    let window = append_bounded w.window (is_cycle_failed c.history) mode_watcher_window in
    let seen = record w {
      window = window;
      recovery_streak = next_streak c.mode_for_streak (is_cycle_failed c.history) w.recovery_streak;
    } in
    let same_facts : IsSpaced seen = record { kept = h.kept; spaced = h.spaced } in
    elim (Bool-cases (should_recommend_mode_two window)) [
      | inr quiet ↦ rw (quiet) same_facts
      | inl bad ↦ elim (Bool-cases (too_soon w.last_emit c.checked_at)) [
        | inl early ↦ rw (bad, early) same_facts
        | inr late ↦ elim (Bool-cases (c.mode_for_emission == 1)) [
          | inr second ↦ rw (bad, late, second) same_facts
          | inl first ↦
              rw (bad, late, first)
                (record {
                  kept = refl;
                  spaced =
                      Spaced-next w.last_emit w.emissions c.checked_at c.emitted_at h.kept h.spaced
                        late le;
                })
        ]
      ]
    ]

run-IsSpaced :
    (w : Watch) (cs : List Cycle) → Ordered cs → IsSpaced w → IsSpaced (run_mode_watcher w cs)
unfolding run_mode_watcher
run-IsSpaced w [] o h = h
run-IsSpaced w (c ∷ cs) o h = run-IsSpaced (watch_cycle w c) cs o.1 (watch_cycle-IsSpaced w c o.0 h)

-- If within each cycle the clock does not go back, two recommendations of a run are at least 30 seconds
-- apart.
pub run_mode_watcher-Spaced :
    (cs : List Cycle) → Ordered cs → Spaced (run_mode_watcher fresh_watch cs).emissions
run_mode_watcher-Spaced cs o =
    (run-IsSpaced fresh_watch cs o (record { kept = refl; spaced = tt })).spaced
