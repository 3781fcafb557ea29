-- ===== src/Hcore/Watcher/Window.antt =====
-- The window of the watcher is the end of the sequence of verdicts.
use inhive_core.Prelude.{
  ℕ, Bool, List, [], ◌∷◌, ◌++◌, length, length-append, ◌≡◌, refl, sym, ap, ◌∙◌, arith, ltb, ◌-◌,
  ◌≤◌, ◌+◌, zero, suc, append_assoc, append-nil, Bool-cases, inl, inr,
}
use inhive_core.Hcore.Watcher.{
  Cycle, Watch, fresh_watch, from_index, append_bounded, watch_cycle, run_mode_watcher,
  is_cycle_failed, mode_watcher_window,
}

-- The last `n` elements, or all of a shorter list.
abbrev pub last_of {ℓ} : {A : Type ℓ} → ℕ → List A → List A
last_of n xs = from_index (length xs - n) xs

abbrev pub verdicts : List Cycle → List Bool
verdicts [] = []
verdicts (c ∷ cs) = is_cycle_failed c.history ∷ verdicts cs

from_index-append :
    (n : ℕ) (xs ys : List Bool) → n ≤ length xs → from_index n (xs ++ ys) ≡ from_index n xs ++ ys
from_index-append zero xs ys h = refl
from_index-append (suc n) [] ys h = absurd (omega arith)
from_index-append (suc n) (x ∷ xs) ys h = from_index-append n xs ys (omega arith)

from_index-empty : (n : ℕ) → from_index {A = Bool} n [] ≡ []
from_index-empty zero = refl
from_index-empty (suc n) = refl

from_index-again :
    (m n : ℕ) (xs : List Bool) → from_index m (from_index n xs) ≡ from_index (n + m) xs
from_index-again m zero xs = ap (λ i. from_index i xs) (omega arith)
from_index-again m (suc n) [] = from_index-empty m ∙ sym (from_index-empty (suc n + m))
from_index-again m (suc n) (x ∷ xs) =
    let moved : suc (n + m) ≡ suc n + m = omega arith in
    from_index-again m n xs ∙ ap (λ i. from_index i (x ∷ xs)) moved

length-from_index : (n : ℕ) (xs : List Bool) → length (from_index n xs) ≡ length xs - n
length-from_index zero xs = omega arith
length-from_index (suc n) [] = omega arith
length-from_index (suc n) (x ∷ xs) = omega (arith, length-from_index n xs)

append_bounded-last_of :
    (w : List Bool) (v : Bool) (n : ℕ) → append_bounded w v n ≡ last_of n (w ++ (v ∷ []))
unfolding append_bounded
append_bounded-last_of w v n =
    let longer = w ++ (v ∷ []) in
    elim (Bool-cases (ltb n (length longer))) [
      | inl more ↦ rw (more)
      | inr fits ↦
          let none_over : 0 ≡ length longer - n = ground arith in
          rw (fits) (ap (λ i. from_index i longer) none_over)
    ]

last_of-last_of :
    (n : ℕ) (h : List Bool) (v : Bool)
    → last_of n (last_of n h ++ (v ∷ [])) ≡ last_of n (h ++ (v ∷ []))
last_of-last_of n h v =
    let k = length h - n in
    let longer = h ++ (v ∷ []) in
    ap (last_of n) (sym (from_index-append k h (v ∷ []) (omega arith)))
    ∙ (from_index-again (length (from_index k longer) - n) k longer
        ∙ ap (λ i. from_index i longer)
            (omega (arith, length-from_index k longer, length-append h (v ∷ []))))

watch_cycle-window :
    (w : Watch) (c : Cycle)
    → (watch_cycle w c).window
      ≡ append_bounded w.window (is_cycle_failed c.history) mode_watcher_window
unfolding watch_cycle
watch_cycle-window w c = ground arith

run-window_from :
    (w : Watch) (h : List Bool) (cs : List Cycle)
    → w.window ≡ last_of mode_watcher_window h
    → (run_mode_watcher w cs).window ≡ last_of mode_watcher_window (h ++ verdicts cs)
unfolding run_mode_watcher
run-window_from w h [] e = e ∙ ap (last_of mode_watcher_window) (sym (append-nil h))
run-window_from w h (c ∷ cs) e =
    let v = is_cycle_failed c.history in
    run-window_from (watch_cycle w c) (h ++ (v ∷ [])) cs (
      watch_cycle-window w c
      ∙ (append_bounded-last_of w.window v mode_watcher_window
          ∙ (ap (λ x. last_of mode_watcher_window (x ++ (v ∷ []))) e
              ∙ last_of-last_of mode_watcher_window h v)))
    ∙ ap (last_of mode_watcher_window) (append_assoc h (v ∷ []) (verdicts cs))

-- After any sequence of cycles the window holds the verdicts of the last ten, or of all if there were
-- fewer.
pub run_mode_watcher-window :
    (cs : List Cycle)
    → (run_mode_watcher fresh_watch cs).window ≡ last_of mode_watcher_window (verdicts cs)
run_mode_watcher-window cs = run-window_from fresh_watch [] cs refl
