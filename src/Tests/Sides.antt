-- ===== src/Tests/Sides.antt =====
-- Runs beside the tunnel: instances, the test of a configuration, and the speed test.
use inhive_core.Prelude.{
  String, true, false, [], ◌∷◌, none, some, panic, ok, ◌≡◌, refl, arith, ◌⊎◌, ◌<◌,
}
use inhive_core.Share.Library.{pos}
use inhive_core.Hcore.Side.{SideWorld, RawInbound, RawOptions, run_instance_core_blocking}
use inhive_core.Config.Settings.{default_inhive_options}
use inhive_core.Hcore.Side.Leaves.{Leaves}
use inhive_core.Hcore.Side.Listeners.{IsMixed, run_instance_core_blocking-Leaves}
use inhive_core.Hcore.Side.Race.{
  Built, Race, waiting, race_start, Step, builds, expires, times_out, Reach, start, later,
  after_build, after_timeout, after_expiry,
}
use inhive_core.Hcore.Side.Race.Settles.{IsSettled, Goes, left, Reach-settles}
use inhive_core.Hcore.Probe.{or_default_url}
use inhive_core.Hcore.UrlTestConfig.{TestWorld, TestRequest, url_test_config, probe_tag, first_exit}
use inhive_core.Hcore.UrlTestConfig.Honest.{IsHonest, url_test_config-IsHonest}
use inhive_core.Hcore.SpeedTest.{compute_kbps}
use inhive_core.Hcore.SpeedTest.Rates.{IsMeasured, compute_kbps-IsMeasured}
use inhive_core.Tests.Samples.{sample_env, sample_input}
use inhive_core.Tests.Probes.{slow_network}

abbrev world : SideWorld
world = record {
  env = sample_env;
  dev_null = "/dev/null";
  random_port = ok 40123;
  check = ok tt;
  starts = ok tt;
  settles = true;
}

abbrev inbound : String → String → RawInbound
inbound kind tag = record {
  inbound_type = kind;
  tag = tag;
  listen = some (record { address = none; port = 12334 });
  details = "";
}

abbrev app_options : RawOptions
app_options = record {
  experimental = none;
  inbounds =
      inbound "tun" "tun-in" ∷ (inbound "mixed" "mixed-in" ∷ (inbound "socks" "socks-in" ∷ []));
  details = "";
}

run_instance_core_blocking-Leaves_example :
    Leaves (IsMixed world none) 2 (run_instance_core_blocking world none (ok sample_input) 2)
unfolding default_inhive_options
run_instance_core_blocking-Leaves_example =
    run_instance_core_blocking-Leaves world none (ok sample_input) 2 refl

-- An instance that comes up after the deadline.
abbrev up : Built
up = record { has_instance = true; error = none }

abbrev late : Race
late = after_build up (after_timeout (after_expiry race_start))

late-Reach : Reach late
late-Reach = later (later (later start (expires refl)) (times_out refl refl)) (builds up refl)

Reach-settles_example :
    (IsSettled late ⊎ Goes late)
    × ((t : Race) → Step late t → left t < left late)
    × (late.caller ≡ waiting → late.expired ≡ true → Step late (after_timeout late))
Reach-settles_example = Reach-settles {s = late} late-Reach

abbrev test_world : TestWorld
test_world = record {
  decode = λ s. ok (record {
    endpoints = [];
    outbounds =
        record { outbound_type = "selector"; tag = "select" }
        ∷ (record { outbound_type = "vless"; tag = "exit" } ∷ []);
  });
  run_instance_raw = λ o. ok true;
  has_outbound = λ tag. true;
  network = slow_network;
  is_over = false;
  answers = true;
  dns_name = λ e. none;
}

abbrev test_request : TestRequest
test_request = record { config_json = "{}"; url = ""; timeout_ms = pos 0 }

url_test_config-IsHonest_example :
    IsHonest test_world (or_default_url "") (url_test_config test_world test_request)
url_test_config-IsHonest_example = url_test_config-IsHonest test_world test_request

-- Two million bytes in two seconds.
compute_kbps-IsMeasured_example : IsMeasured 2000000 2000000000 (compute_kbps 2000000 2000000000)
compute_kbps-IsMeasured_example = compute_kbps-IsMeasured 2000000 2000000000 (omega arith)

-- A byte in half a millisecond.
too_fast : compute_kbps 1 500000 ≡ panic
unfolding compute_kbps
too_fast = refl

select_skipped :
    probe_tag (record {
      endpoints = [];
      outbounds =
          record { outbound_type = "selector"; tag = "select" }
          ∷ (record { outbound_type = "vless"; tag = "exit" } ∷ []);
    })
    ≡ "exit"
unfolding probe_tag first_exit
select_skipped = refl
