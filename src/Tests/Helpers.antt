-- ===== src/Tests/Helpers.antt =====
-- Runs of the helpers, the WARP patch and the watcher.
use inhive_core.Prelude.{
  ok, ℕ, String, Bool, true, false, List, [], ◌∷◌, Option, some, ◌≡◌, refl, All, apart, arith,
}
use inhive_core.Config.SingBox.{WireGuardPeer}
use inhive_core.Config.Helpers.{get_ips, IpCache}
use inhive_core.Config.Helpers.Addresses.{IsOpen, IsOpenCache, get_ips-IsOpen}
use inhive_core.Config.Warp.{patch_peers}
use inhive_core.Config.Warp.Peers.{patch_peers-first}
use inhive_core.Hcore.Watcher.{Cycle, fresh_watch, run_mode_watcher, mode_watcher_window}
use inhive_core.Hcore.Watcher.Window.{last_of, verdicts, run_mode_watcher-window}
use inhive_core.Hcore.Watcher.Emissions.{Spaced, run_mode_watcher-Spaced}
use inhive_core.Tests.Samples.{sample_env}

abbrev sample_resolver : String → Option (List String)
sample_resolver d = some ("10.10.34.35" ∷ "93.184.216.34" ∷ [])

get_ips-IsOpen_example :
    (r : List String × IpCache) × (get_ips sample_resolver ("example.org" ∷ []) [] ≡ ok r)
    × (All IsOpen r.0 × IsOpenCache r.1)
get_ips-IsOpen_example = get_ips-IsOpen sample_resolver "example.org" [] [] tt

abbrev auto_peer : WireGuardPeer
auto_peer = record { address = "auto6"; port = 0; public_key = "key" }

patch_peers-first_example :
    (q : WireGuardPeer) × (patch_peers sample_env (auto_peer ∷ []) ≡ q ∷ [])
    × (q.address ≡ "162.159.192.1")
    × (q.port ≡ 2408)
    × (q.public_key ≡ "key")
patch_peers-first_example =
    patch_peers-first sample_env auto_peer [] (apart sample_env.random_warp_v6 "auto6" refl)

abbrev failed_at : ℕ → Cycle
failed_at t = record {
  history = ("one", some (record { delay = 65535; is_from_cache = false })) ∷ [];
  mode_for_streak = 1;
  mode_for_emission = 1;
  checked_at = t;
  emitted_at = t;
}

abbrev sample_cycles : List Cycle
sample_cycles =
    failed_at 0
    ∷ failed_at 1
    ∷ failed_at 2
    ∷ failed_at 3
    ∷ failed_at 4
    ∷ failed_at 5
    ∷ failed_at 6
    ∷ failed_at 7
    ∷ failed_at 8
    ∷ failed_at 9
    ∷ failed_at 40000000000
    ∷ []

run_mode_watcher-window_example :
    (run_mode_watcher fresh_watch sample_cycles).window
    ≡ last_of mode_watcher_window (verdicts sample_cycles)
run_mode_watcher-window_example = run_mode_watcher-window sample_cycles

run_mode_watcher-Spaced_example : Spaced (run_mode_watcher fresh_watch sample_cycles).emissions
run_mode_watcher-Spaced_example = run_mode_watcher-Spaced sample_cycles (
  omega arith,
  (
    omega arith,
    (
      omega arith,
      (
        omega arith,
        (
          omega arith,
          (
            omega arith,
            (omega arith, (omega arith, (omega arith, (omega arith, (omega arith, tt))))),
          ),
        ),
      ),
    ),
  ),
)

abbrev seven_failures : List Bool
seven_failures = true ∷ true ∷ true ∷ true ∷ true ∷ true ∷ true ∷ []
