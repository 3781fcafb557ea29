-- ===== src/Hcore/Watcher/Threshold.antt =====
-- When the window makes the watcher recommend mode 2.
use inhive_core.Prelude.{
  Bool, true, false, List, [], ◌∷◌, ◌++◌, length, ◌≡◌, refl, arith, ◌≤◌, ◌+◌, ◌*◌, inl, inr, ◌⊎◌,
  ◌↔◌,
}
use inhive_core.Hcore.Watcher.{
  backwards, failures, failures_until, should_recommend_mode_two, mode_watcher_window,
  mode_watcher_consec_failures,
}

failures-append : (v w : List Bool) → failures (v ++ w) ≡ failures v + failures w
unfolding failures
failures-append [] w = omega arith
failures-append (true ∷ v) w = omega (arith, failures-append v w)
failures-append (false ∷ v) w = failures-append v w

failures-backwards : (w : List Bool) → failures (backwards w) ≡ failures w
unfolding failures
failures-backwards [] = refl
failures-backwards (true ∷ w) =
    omega (arith, failures-append (backwards w) (true ∷ []), failures-backwards w)
failures-backwards (false ∷ w) =
    omega (arith, failures-append (backwards w) (false ∷ []), failures-backwards w)

failures_until-le : (w : List Bool) → failures_until w ≤ failures w
unfolding failures failures_until
failures_until-le [] = omega arith
failures_until-le (true ∷ w) = omega (arith, failures_until-le w)
failures_until-le (false ∷ w) = omega arith

abbrev pub EndsFailed : List Bool → Type 0
EndsFailed w = mode_watcher_consec_failures ≤ failures_until (backwards w)

abbrev pub MostFailed : List Bool → Type 0
MostFailed w = (mode_watcher_window ≤ length w) × (70 * length w ≤ 100 * failures w)

-- The watcher recommends mode 2 exactly if the last seven verdicts of the window are failures, or the
-- window is full and at least 70 percent of it are.
should_recommend_mode_two_iff :
    (w : List Bool) → (should_recommend_mode_two w ≡ true) ↔ (EndsFailed w ⊎ MostFailed w)
unfolding should_recommend_mode_two
should_recommend_mode_two_iff [] = unfold failures_until failures in ground arith
should_recommend_mode_two_iff (x ∷ xs) = ground arith

-- The watcher never recommends mode 2 with fewer than seven failures in the window.
pub should_recommend_mode_two-seven :
    (w : List Bool) → should_recommend_mode_two w ≡ true → 7 ≤ failures w
should_recommend_mode_two-seven w h = elim ((should_recommend_mode_two_iff w).0 h) [
  | inl tail ↦ omega (arith, failures_until-le (backwards w), failures-backwards w)
  | inr most ↦ omega (arith, most.0, most.1)
]
