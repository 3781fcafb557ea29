-- ===== src/Config/Outbounds/Assemble.antt =====
-- `setOutbounds` of v2/config/builder_outbound.go: the groups, and the lists that the options take over.
-- Its two loops are in the child.
mod Collect
unfoldable pub use Collect.*
use inhive_core.Prelude.{
  ℕ, String, Bool, true, false, not, ◌&&◌, ◌||◌, List, [], ◌∷◌, ◌++◌, Outcome, ok, panic, ◌>>=◌,
  same, has_part, max, if◌then◌else◌,
}
use inhive_core.Config.Tags.{
  outbound_direct_tag, outbound_select_tag, outbound_url_test_tag, outbound_round_robin_tag,
  outbound_direct_fragment_tag, warp_config_tag, predefined_outbound_tags,
}
use inhive_core.Config.SingBox.{
  Outbound, OutboundType, block, dns_out, selector, url_test, custom, direct, balancer,
  balancer_group, selector_group, direct_dial, Endpoint, EndpointType, warp, wire_guard,
  EndpointOptions, warp_options, wire_guard_options, Options,
}
use inhive_core.Config.Settings.{InhiveOptions, WarpMode, warp_over_proxy}
use inhive_core.Config.Env.{Env}
use inhive_core.Config.Helpers.{contains, is_blocked_connection_test_url}
use inhive_core.Config.Outbounds.Patch.{patch_outbound, patch_warp_from_config, is_psiphon}
use inhive_core.Config.Warp.{generate_warp_singbox_new, patch_warp}

abbrev pub group : List String → String → String → Outbound
group tags tag strategy = record {
  outbound_type = balancer;
  tag = tag;
  options = balancer_group (record {
    outbounds = tags;
    strategy = strategy;
    delay_acceptable_ratio = 2;
    tolerance = 1;
    interrupt_exist_connections = true;
  });
}

unfoldable pub any_default : List String → Bool
any_default [] = false
any_default (tag ∷ tags) = has_part tag "§default§" || any_default tags

-- The groups in front of the outbounds: what the selector offers, its default and the new list.
pub record Groups : Type 0 where
  pub offered : List String
  pub default : String
  pub before : List Outbound

-- `tags[0]` panics on an empty slice.
unfoldable pub make_groups : Bool → String → List String → Outcome Groups
unfolding any_default
make_groups warped strategy [] = panic
make_groups warped strategy (tag ∷ []) = ok (record {
  offered = tag ∷ [];
  default = if any_default (tag ∷ []) then "§default§" else tag;
  before = [];
})
make_groups true strategy (tag ∷ more ∷ rest) =
    let tags = tag ∷ more ∷ rest in
    ok (record {
      offered = outbound_url_test_tag ∷ tags;
      default = outbound_url_test_tag;
      before = group tags outbound_url_test_tag "lowest-delay" ∷ [];
    })
make_groups false strategy (tag ∷ more ∷ rest) =
    let tags = tag ∷ more ∷ rest in
    ok (record {
      offered = outbound_url_test_tag ∷ outbound_round_robin_tag ∷ tags;
      default = outbound_round_robin_tag;
      before =
          group tags outbound_round_robin_tag strategy
          ∷ group tags outbound_url_test_tag "lowest-delay"
          ∷ [];
    })

abbrev pub selector_of : Groups → Outbound
selector_of g = record {
  outbound_type = selector;
  tag = outbound_select_tag;
  options =
      selector_group
        (record { outbounds = g.offered; default = g.default; interrupt_exist_connections = true });
}

abbrev pub direct_outbounds : List Outbound
direct_outbounds =
    record { tag = outbound_direct_tag; outbound_type = direct; options = direct_dial }
    ∷ record { tag = outbound_direct_fragment_tag; outbound_type = direct; options = direct_dial }
    ∷ []

-- The test addresses, where none are set.
unfoldable pub default_test_urls : Env → InhiveOptions → List String → List String
default_test_urls env opt others =
    if is_blocked_connection_test_url env opt.connection_test_url
    then opt.connection_test_url ∷ []
    else opt.connection_test_url ∷ others

abbrev pub or_default : List String → List String → List String
or_default [] others = others
or_default (u ∷ urls) others = u ∷ urls

-- What `setOutbounds` leaves: the options, the settings behind its pointer, and the variable
-- `OutboundMainDetour`.
pub record Assembled : Type 0 where
  pub options : Options
  pub settings : InhiveOptions
  pub main_detour : String

-- The first loop, over the outbounds of the input.
unfoldable pub collected : InhiveOptions → Options → Collected
unfolding collect_outbounds
collected opt input =
    collect_outbounds opt (record { outbounds = []; tags = []; has_psiphon = false })
      input.outbounds

abbrev pub warp_endpoints : Env → InhiveOptions → List Endpoint
warp_endpoints env opt = if opt.warp.enable_warp then warp_endpoint env opt ∷ [] else []

-- The WARP endpoint and the second loop, over the endpoints of the input.
unfoldable pub ends_of : Env → InhiveOptions → Options → Ends
unfolding collected collect_endpoints warp_endpoint
ends_of env opt input =
    collect_endpoints env opt
      (record {
        endpoints = warp_endpoints env opt;
        tags = (collected opt input).tags;
        mtu =
            if opt.warp.enable_warp && not (is_over_proxy opt.warp.mode)
            then max opt.mtu 1340
            else opt.mtu;
      })
      input.endpoints

abbrev pub main_detour_of : InhiveOptions → String
main_detour_of opt = if opt.warp.enable_warp then warp_config_tag else outbound_select_tag

unfoldable pub assembled : Env → Options → Options → InhiveOptions → Groups → Assembled
unfolding ends_of default_test_urls
assembled env options input opt g =
    let urls = or_default opt.connection_test_urls (
      default_test_urls env opt (
        "https://www.google.com/generate_204" ∷ "http://captive.apple.com/generate_204"
        ∷ "https://cp.cloudflare.com" ∷ [])) in
    record {
      options = record options {
        endpoints = (ends_of env opt input).endpoints;
        outbounds =
            (selector_of g ∷ (g.before ++ (collected opt input).outbounds)) ++ direct_outbounds;
      };
      settings = record opt { mtu = (ends_of env opt input).mtu; connection_test_urls = urls };
      main_detour = main_detour_of opt;
    }

unfoldable pub set_outbounds : Env → Options → Options → InhiveOptions → Outcome Assembled
unfolding ends_of make_groups assembled
set_outbounds env options input opt =
    make_groups opt.warp.enable_warp opt.balancer_strategy (ends_of env opt input).tags >>= λ g.
    ok (assembled env options input opt g)
