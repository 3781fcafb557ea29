-- ===== src/Hcore/Watcher.antt =====
-- v2/hcore/urltest_watcher.go: the watcher of the outbounds' health, one test cycle after another. Times
-- are in nanoseconds. What a cycle reads of the clock and of the wanted mode is in its event.
pub mod Window
pub mod Threshold
pub mod Emissions
use inhive_core.Prelude.{
  ℕ, String, Bool, true, false, not, ◌&&◌, ◌||◌, List, [], ◌∷◌, ◌++◌, Option, none, some, ltb, leb,
  ◌==◌, if◌then◌else◌, length, ◌+◌, ◌*◌, ◌-◌, zero, suc,
}

abbrev pub mode_watcher_window : ℕ
mode_watcher_window = 10

abbrev pub mode_watcher_consec_failures : ℕ
mode_watcher_consec_failures = 7

abbrev pub mode_watcher_debounce : ℕ
mode_watcher_debounce = 30000000000

-- `adapter.URLTestHistory`.
pub record UrlTestHistory : Type 0 where
  pub delay : ℕ
  pub is_from_cache : Bool

abbrev pub is_usable : Option UrlTestHistory → Bool
is_usable none = false
is_usable (some h) = not h.is_from_cache && (ltb 0 h.delay && ltb h.delay 65535)

unfoldable pub none_usable : List (String × Option UrlTestHistory) → Bool
none_usable [] = true
none_usable (h ∷ hs) = if is_usable h.1 then false else none_usable hs

-- The map is the list of its entries in the order of the iteration.
unfoldable pub is_cycle_failed : List (String × Option UrlTestHistory) → Bool
is_cycle_failed [] = false
is_cycle_failed (h ∷ hs) = none_usable (h ∷ hs)

-- The rest of a slice from an index.
abbrev pub from_index {ℓ} : {A : Type ℓ} → ℕ → List A → List A
from_index zero xs = xs
from_index (suc n) [] = []
from_index (suc n) (x ∷ xs) = from_index n xs

unfoldable pub append_bounded : List Bool → Bool → ℕ → List Bool
append_bounded window v max =
    let longer = window ++ (v ∷ []) in
    if ltb max (length longer) then from_index (length longer - max) longer else longer

abbrev pub backwards : List Bool → List Bool
backwards [] = []
backwards (x ∷ xs) = backwards xs ++ (x ∷ [])

-- The loop over the window from its end.
unfoldable pub failures_until : List Bool → ℕ
failures_until [] = 0
failures_until (true ∷ w) = suc (failures_until w)
failures_until (false ∷ w) = 0

unfoldable pub failures : List Bool → ℕ
failures [] = 0
failures (true ∷ w) = suc (failures w)
failures (false ∷ w) = failures w

-- The rate is compared with 0.70 in hundredths: with a window of ten the quotient is a multiple of a
-- tenth, and Go's division gives the float of the constant for 7 / 10.
unfoldable pub should_recommend_mode_two : List Bool → Bool
should_recommend_mode_two [] = false
should_recommend_mode_two (x ∷ xs) =
    let window = x ∷ xs in
    if leb mode_watcher_consec_failures (failures_until (backwards window))
    then true
    else if ltb (length window) mode_watcher_window
    then false
    else leb (70 * length window) (100 * failures window)

-- One event of the group, with what the loop's body reads after it.
pub record Cycle : Type 0 where
  pub history : List (String × Option UrlTestHistory)
  pub mode_for_streak : ℕ
  pub mode_for_emission : ℕ
  pub checked_at : ℕ
  pub emitted_at : ℕ

-- The loop's variables. `last_emit` is none while Go's is the zero time, which is longer ago than the
-- debounce. `emissions` holds the times of the published recommendations, the newest first.
pub record Watch : Type 0 where
  pub window : List Bool
  pub last_emit : Option ℕ
  pub recovery_streak : ℕ
  pub emissions : List ℕ

abbrev pub fresh_watch : Watch
fresh_watch = record { window = []; last_emit = none; recovery_streak = 0; emissions = [] }

abbrev pub too_soon : Option ℕ → ℕ → Bool
too_soon none now = false
too_soon (some last) now = ltb (now - last) mode_watcher_debounce

unfoldable pub next_streak : ℕ → Bool → ℕ → ℕ
next_streak mode failed streak =
    if (mode == 1) && not failed then streak + 1 else if failed then 0 else streak

-- The body of `runModeWatcher`'s loop after an event.
unfoldable pub watch_cycle : Watch → Cycle → Watch
watch_cycle w c =
    let failed = is_cycle_failed c.history in
    let window' = append_bounded w.window failed mode_watcher_window in
    let seen = record w {
      window = window';
      recovery_streak = next_streak c.mode_for_streak failed w.recovery_streak;
    } in
    if not (should_recommend_mode_two window')
    then seen
    else if too_soon w.last_emit c.checked_at
    then seen
    else if not (c.mode_for_emission == 1)
    then seen
    else record seen { last_emit = some c.emitted_at; emissions = c.emitted_at ∷ w.emissions }

-- `runModeWatcher` until the events end.
unfoldable pub run_mode_watcher : Watch → List Cycle → Watch
run_mode_watcher w [] = w
run_mode_watcher w (c ∷ cs) = run_mode_watcher (watch_cycle w c) cs
