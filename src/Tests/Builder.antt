-- ===== src/Tests/Builder.antt =====
-- Runs of the builder.
use inhive_core.Prelude.{
  panic, ◌⊎◌, String, true, false, [], ◌∷◌, none, some, ok, ◌≡◌, refl, All, has_part, ◌≤◌, apart,
}
use inhive_core.Config.SingBox.{Options, selector, DnsServer, local_server, DnsOptions}
use inhive_core.Config.Settings.{default_inhive_options}
use inhive_core.Config.Helpers.{contains}
use inhive_core.Config.Inbounds.{set_experimental}
use inhive_core.Config.Dns.{set_dns, get_dns_address, fallback_address}
use inhive_core.Config.Dns.Server.{get_dns_server_options}
use inhive_core.Config.Route.{set_routing_options}
use inhive_core.Config.Outbounds.Assemble.{Assembled, set_outbounds, collected, make_groups, Groups}
use inhive_core.Config.Outbounds.Closed.{HasGroups, set_outbounds-closed}
use inhive_core.Config.Outbounds.Empty.{IsUnlisted, IsUnlistedEnd, set_outbounds-panic}
use inhive_core.Config.Outbounds.Patch.{is_psiphon}
use inhive_core.Config.Outbounds.Kept.{
  IsForeign, count_psiphon, collected-IsForeign, make_groups-lost_default,
}
use inhive_core.Config.Build.{build_config, no_options}
use inhive_core.Config.Build.Closed.{BuildsClosed, build_config-IsClosed}
use inhive_core.Config.Build.Listeners.{IsBound, IsLoopback, build_config-IsLoopback}
use inhive_core.Config.Build.FullConfig.{with_parts, build_config-full_ignored}
use inhive_core.Tests.Samples.{value_of, sample_env, sample_input, sample_outbound}

abbrev built : Options × String
built = value_of (no_options, "") (build_config sample_env default_inhive_options (ok sample_input))

build_config-IsClosed_example : BuildsClosed built
unfolding set_outbounds contains has_part set_experimental default_inhive_options set_dns
    get_dns_server_options get_dns_address fallback_address set_routing_options build_config
build_config-IsClosed_example =
    build_config-IsClosed sample_env default_inhive_options (ok sample_input) refl

build_config-IsLoopback_example : All (IsBound IsLoopback 9000) built.0.inbounds
unfolding set_outbounds contains has_part set_experimental default_inhive_options set_dns
    get_dns_server_options get_dns_address fallback_address set_routing_options build_config
build_config-IsLoopback_example =
    build_config-IsLoopback sample_env default_inhive_options (ok sample_input) refl refl refl

abbrev sample_dns : DnsOptions
sample_dns = record {
  servers = [];
  rules = [];
  final = "elsewhere";
  independent_cache = false;
  disable_expire = false;
}

build_config-full_ignored_example :
    build_config sample_env
      (record default_inhive_options { enable_full_config = true })
      (ok (with_parts sample_input (some sample_dns) none))
    ≡ build_config sample_env
        (record default_inhive_options { enable_full_config = true })
        (ok sample_input)
build_config-full_ignored_example =
    build_config-full_ignored sample_env
      (record default_inhive_options { enable_full_config = true }) sample_input (some sample_dns)
      none

abbrev sample_assembled : Assembled
sample_assembled =
    value_of (record { options = no_options; settings = default_inhive_options; main_detour = "" })
      (set_outbounds sample_env no_options sample_input default_inhive_options)

set_outbounds-closed_example : HasGroups default_inhive_options sample_input sample_assembled
unfolding set_outbounds contains has_part default_inhive_options
set_outbounds-closed_example =
    set_outbounds-closed sample_env no_options sample_input default_inhive_options refl

-- A proxy that is hidden and a group.
abbrev unlisted_input : Options
unlisted_input = record no_options {
  outbounds =
      sample_outbound "one §hide§"
      ∷ record (sample_outbound "two") { outbound_type = selector }
      ∷ [];
}

set_outbounds-panic_example :
    let made = set_outbounds sample_env no_options unlisted_input default_inhive_options in
    ((All IsUnlisted unlisted_input.outbounds
        × All (IsUnlistedEnd default_inhive_options) unlisted_input.endpoints)
      → made ≡ panic)
    × (made ≡ panic
        → All (λ o. IsUnlisted o ⊎ (is_psiphon o.outbound_type ≡ true)) unlisted_input.outbounds
          × All (IsUnlistedEnd default_inhive_options) unlisted_input.endpoints)
    × ((made ≡ panic) ⊎ ((a : Assembled) × (made ≡ ok a)))
set_outbounds-panic_example =
    set_outbounds-panic sample_env no_options unlisted_input default_inhive_options

collected-IsForeign_example :
    All IsForeign (collected default_inhive_options sample_input).outbounds
    × (count_psiphon (collected default_inhive_options sample_input).outbounds ≤ 1)
collected-IsForeign_example = collected-IsForeign default_inhive_options sample_input

abbrev no_groups : Groups
no_groups = record { offered = []; default = ""; before = [] }

abbrev two_groups : Groups
two_groups = value_of no_groups (make_groups false "" ("one" ∷ "two" ∷ []))

abbrev marked_group : Groups
marked_group = value_of no_groups (make_groups false "" ("one §default§" ∷ []))

make_groups-lost_default_example : contains marked_group.offered marked_group.default ≡ false
unfolding make_groups has_part
make_groups-lost_default_example =
    make_groups-lost_default false "" "one §default§" refl (apart "one §default§" "§default§" refl)
      refl

abbrev no_server : DnsServer
no_server = record {
  tag = "";
  server_type = "";
  options = local_server (record { detour = ""; domain_resolver = "" });
}

abbrev sample_server : DnsServer
sample_server =
    value_of no_server (get_dns_server_options sample_env "dns" "udp://1.1.1.1" "local" "select")
