-- ===== src/Hcore/Probe/Bounds.antt =====
-- What a probe that succeeds reports.
use inhive_core.Prelude.{
  ℕ, String, Bool, true, false, ok, fail, >>=-eq-ok, ◌≡◌, refl, sym, ◌∙◌, arith, ◌/◌, if◌then◌else◌,
  Bool-cases, inl, inr, max, min,
}
use inhive_core.Hcore.Probe.{
  Network, status_ok, reported_delay, probe_host_port, probe_through_detour, or_default_url,
}

reported_delay-clamped : (t : ℕ) → reported_delay t ≡ max 1 (min 65535 (t / 1000000))
unfolding reported_delay
reported_delay-clamped t = ground arith

accepted :
    (code expected t : ℕ) {delay : ℕ}
    → (if status_ok code expected then ok (reported_delay t) else fail "unexpected status")
      ≡ ok delay
    → (status_ok code expected ≡ true) × (delay ≡ max 1 (min 65535 (t / 1000000)))
accepted code expected t e = elim (Bool-cases (status_ok code expected)) [
  | inl good ↦ (good, sym (ok_inj (rw good at e)) ∙ reported_delay-clamped t)
  | inr bad ↦ cc (rw bad at e)
]
  where
    ok_inj : {a b : ℕ} → ok a ≡ ok b → a ≡ b
    ok_inj e = cc

-- A probe that succeeds had a dialer and an answer with an accepted status, and reports the elapsed time
-- in milliseconds, raised to 1 and cut off at 65535: neither the sentinel 0 nor a number that wrapped.
pub probe_through_detour-clamped :
    (net : Network) (link : String) (has_detour : Bool) (expected : ℕ) {delay : ℕ}
    → probe_through_detour net link has_detour expected ≡ ok delay
    → (has_detour ≡ true)
      × ((code : ℕ) × (net.respond (or_default_url link) ≡ ok code)
          × (status_ok code expected ≡ true))
      × (delay ≡ max 1 (min 65535 (net.elapsed net.needs_handshake / 1000000)))
unfolding probe_through_detour
probe_through_detour-clamped net link false expected e = cc
probe_through_detour-clamped net link true expected e =
    let (address, _, e1) = >>=-eq-ok (probe_host_port net (or_default_url link)) _ e in
    let (dialed, _, e2) = >>=-eq-ok (net.dial address.0 address.1) _ e1 in
    let (request, _, e3) = >>=-eq-ok (net.new_request (or_default_url link)) _ e2 in
    let (code, answered, e4) = >>=-eq-ok (net.respond (or_default_url link)) _ e3 in
    let (good, clamped) = accepted code expected (net.elapsed net.needs_handshake) e4 in
    (refl, (code, answered, good), clamped)
