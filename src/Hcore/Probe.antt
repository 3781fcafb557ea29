-- ===== src/Hcore/Probe.antt =====
-- v2/hcore/probe_helpers.go: one request through an outbound, its delay, and what its errors mean. What
-- the network and Go's URL parser answer during a probe is in a `Network`.
pub mod Bounds
use inhive_core.Prelude.{
  ℕ, String, Bool, true, false, not, ◌&&◌, ◌||◌, List, [], ◌∷◌, Option, none, some, Outcome, ok,
  fail, panic, ◌>>=◌, same, has_part, join, ltb, ◌==◌, ◌%◌, ◌/◌, if◌then◌else◌,
}

-- The parts of a parsed URL, with Go's `Hostname` and `Port`.
pub record ProbeUrl : Type 0 where
  pub scheme : String
  pub hostname : String
  pub port : String

-- `elapsed` is the time since the start in nanoseconds; the clock starts again after the dial where the
-- protocol defers its handshake.
pub record Network : Type 0 where
  pub parse_url : String → Outcome ProbeUrl
  pub dial : String → String → Outcome (Unit {0})
  pub needs_handshake : Bool
  pub new_request : String → Outcome (Unit {0})
  pub respond : String → Outcome ℕ
  pub elapsed : (since_dial : Bool) → ℕ

abbrev pub default_probe_url : String
default_probe_url = "https://www.gstatic.com/generate_204"

abbrev pub or_default_url : String → String
or_default_url link = if same link "" then default_probe_url else link

-- `statusOK`.
unfoldable pub status_ok : (code expected : ℕ) → Bool
status_ok code expected = if expected == 0 then code == 204 || code == 200 else code == expected

-- The delay in milliseconds as a `uint16`.
unfoldable pub reported_delay : (elapsed : ℕ) → ℕ
reported_delay elapsed =
    let delay = elapsed / 1000000 in
    let at_least = if delay == 0 then 1 else delay in
    (if ltb 65535 at_least then 65535 else at_least) % 65536

-- `probeHostPort`, as the pair that is parsed into an address.
unfoldable pub probe_host_port : Network → String → Outcome (String × String)
probe_host_port net link = do
  u ← net.parse_url link
  ok (
    u.hostname,
    (if same u.port "" then (if same u.scheme "http" then "80" else "443") else u.port),
  )

-- `probeThroughDetour`; `has_detour` tells whether the dialer is set.
unfoldable pub probe_through_detour : Network → String → Bool → ℕ → Outcome ℕ
unfolding probe_host_port
probe_through_detour net link false expected = fail "probe dialer is nil"
probe_through_detour net link true expected = do
  let url = or_default_url link
  address ← probe_host_port net url
  dialed ← net.dial address.0 address.1
  request ← net.new_request url
  code ← net.respond url
  if status_ok code expected
      then ok (reported_delay (net.elapsed net.needs_handshake))
      else fail "unexpected status"

-- The markers of an error that the same configuration gives each time.
abbrev pub bring_up_markers : List String
bring_up_markers =
    "parse config:" ∷ "initialize outbound" ∷ "initialize endpoint" ∷ "create outbound"
    ∷ "create endpoint" ∷ "unknown outbound type" ∷ "unknown endpoint type"
    ∷ "not available in this build" ∷ "is deprecated" ∷ "plugin not found" ∷ []

unfoldable pub has_marker : String → List String → Bool
has_marker msg [] = false
has_marker msg (m ∷ markers) = has_part msg m || has_marker msg markers

-- `isDeterministicBringUpError`; no error is none.
unfoldable pub is_deterministic_bring_up_error : Option String → Bool
unfolding has_marker
is_deterministic_bring_up_error none = false
is_deterministic_bring_up_error (some msg) = has_marker msg bring_up_markers
