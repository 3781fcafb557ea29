-- ===== src/Tests/Probes.antt =====
-- Runs of a probe.
use inhive_core.Prelude.{ℕ, true, ok, ◌≡◌, refl, max, min, ◌/◌}
use inhive_core.Hcore.Probe.{
  Network, status_ok, reported_delay, probe_through_detour, or_default_url,
}
use inhive_core.Hcore.Probe.Bounds.{probe_through_detour-clamped}

abbrev pub slow_network : Network
slow_network = record {
  parse_url = λ s. ok (record { scheme = "https"; hostname = "www.gstatic.com"; port = "" });
  dial = λ host port. ok tt;
  needs_handshake = true;
  new_request = λ s. ok tt;
  respond = λ s. ok 204;
  elapsed = λ b. 70000000000;
}

probe_through_detour-clamped_example :
    (true ≡ true)
    × ((code : ℕ) × (slow_network.respond (or_default_url "") ≡ ok code)
        × (status_ok code 0 ≡ true))
    × (65535 ≡ max 1 (min 65535 (70000000000 / 1000000)))
unfolding probe_through_detour status_ok reported_delay
probe_through_detour-clamped_example = probe_through_detour-clamped slow_network "" true 0 refl
