-- ===== src/Hcore/SpeedTest/Rates.antt =====
-- The rate that `computeKbps` gives.
use native.Mathlib.Nat.{div-mul-le_self, lt-div-mul-add}
use inhive_core.Prelude.{
  ℕ, zero, suc, ◌<◌, ◌≤◌, false, ◌&&◌, Outcome, panic, ok, fail, ◌>>=◌, ltb, ◌*◌, ◌/◌, ◌+◌, ◌≡◌,
  refl, sym, subst, ◌⊎◌, inl, inr, arith, if_case,
}
use inhive_core.Share.Library.{pos}
use inhive_core.Share.Query.{wrapped_64}
use inhive_core.Hcore.SpeedTest.{Speed, divided, measured, compute_kbps}

-- The time that makes the divisor zero.
abbrev pub IsTooFast : ℕ → ℕ → Type 0
IsTooFast bytes elapsed = (0 < bytes) × (0 < elapsed) × (elapsed < 1000000)

-- A rate in kilobytes for each second, rounded down.
abbrev pub IsRate : ℕ → ℕ → ℕ → Type 0
IsRate bytes ms rate =
    (rate * (ms * 1024) ≤ bytes * 1000) × (bytes * 1000 < (rate + 1) * (ms * 1024))

-- What the response says: nothing where the division panics; else the numbers of the test, and a rate of
-- zero without bytes or time.
abbrev pub IsMeasured : ℕ → ℕ → Outcome Speed → Type 0
IsMeasured bytes elapsed panic = IsTooFast bytes elapsed
IsMeasured bytes elapsed (fail e) = ⊥
IsMeasured bytes elapsed (ok s) =
    (s.elapsed_ms ≡ elapsed / 1000000)
    × (s.bytes_transferred ≡ bytes)
    × (((s.speed_kbps ≡ pos 0) × ((bytes ≡ 0) ⊎ (elapsed ≡ 0)))
        ⊎ ((1000000 ≤ elapsed)
            × ((rate : ℕ) × (s.speed_kbps ≡ pos rate) × IsRate bytes (elapsed / 1000000) rate)))

-- A product below 2⁶³ is not wrapped.
wrapped_64-small : (n : ℕ) → n < 9223372036854775808 → wrapped_64 n ≡ pos n
wrapped_64-small n h = ground arith

division-IsRate : (bytes ms d : ℕ) → ms * 1024 ≡ suc d → IsRate bytes ms (bytes * 1000 / suc d)
division-IsRate bytes ms d e =
    let b = bytes * 1000 in
    subst (λ k. (b / suc d * k ≤ b) × (b < (b / suc d + 1) * k)) (sym e)
      (div-mul-le_self b (suc d), omega (arith, lt-div-mul-add {a = b} {b = suc d} (omega arith)))

rated-IsMeasured :
    (bytes elapsed k : ℕ)
    → elapsed / 1000000 * 1024 ≡ k
    → 0 < bytes
    → 0 < elapsed
    → bytes * 1000 < 9223372036854775808
    → IsMeasured bytes elapsed
        (divided (pos (bytes * 1000)) k >>= λ rate. ok (measured bytes (elapsed / 1000000) rate))
rated-IsMeasured bytes elapsed zero e b t small = (b, t, omega (arith, e))
rated-IsMeasured bytes elapsed (suc d) e b t small = (
  refl,
  refl,
  inr (
    omega (arith, e),
    (bytes * 1000 / suc d, refl, division-IsRate bytes (elapsed / 1000000) d e),
  ),
)

unrated-IsMeasured :
    (bytes elapsed : ℕ)
    → (ltb 0 bytes && ltb 0 elapsed) ≡ false
    → IsMeasured bytes elapsed (ok (measured bytes (elapsed / 1000000) (pos 0)))
unrated-IsMeasured bytes elapsed e = (refl, refl, inl (refl, ground arith))

-- For a test of at most 9223372036854775 bytes, the response has the number of bytes, the milliseconds,
-- and the rate in kilobytes for each second, rounded down, which is 0 without bytes or time. The
-- computation panics only where bytes were transferred in less than a millisecond.
pub compute_kbps-IsMeasured :
    (bytes elapsed : ℕ)
    → bytes * 1000 < 9223372036854775808
    → IsMeasured bytes elapsed (compute_kbps bytes elapsed)
unfolding compute_kbps
compute_kbps-IsMeasured bytes elapsed small =
    if_case (IsMeasured bytes elapsed) (ltb 0 bytes && ltb 0 elapsed) _ _
      (λ e.
        subst
          (λ i. IsMeasured bytes elapsed (
            divided i (elapsed / 1000000 * 1024) >>= λ rate.
            ok (measured bytes (elapsed / 1000000) rate)))
          (sym (wrapped_64-small (bytes * 1000) small))
          (rated-IsMeasured bytes elapsed (elapsed / 1000000 * 1024) refl (ground arith)
            (ground arith) small))
      (λ e. unrated-IsMeasured bytes elapsed e)
