-- ===== src/Config/Inbounds.antt =====
-- v2/config/builder_inbound.go: the clash interface, the log, the clock and the inbounds.
use inhive_core.Prelude.{
  ℕ, ◌*◌, String, Bool, true, false, not, ◌&&◌, ◌||◌, List, [], ◌∷◌, ◌++◌, some, same, join, ltb,
  if◌then◌else◌,
}
use inhive_core.Config.Tags.{
  outbound_direct_tag, inbound_tun_tag, inbound_mixed_tag, inbound_tproxy, inbound_redirect,
  inbound_direct_tag,
}
use inhive_core.Config.SingBox.{Options, Inbound, tun, mixed, tproxy, redirect, direct_in}
use inhive_core.Config.Settings.{InhiveOptions}
use inhive_core.Config.Env.{Env}
use inhive_core.Config.Outbounds.Assemble.{or_default, default_test_urls}

abbrev pub second : ℕ
second = 1000000000

unfoldable pub set_ntp : Options → Options
set_ntp options = record options {
  ntp = some (record {
    enabled = true;
    server = "time.apple.com";
    server_port = 123;
    interval = 12 * 3600 * second;
    detour = outbound_direct_tag;
  });
}

-- `setExperimental` also writes the settings behind its pointer.
unfoldable pub set_experimental : Env → Options → InhiveOptions → Options × InhiveOptions
unfolding default_test_urls
set_experimental env options hopt =
    let urls = or_default hopt.connection_test_urls (
      default_test_urls env hopt (
        "http://captive.apple.com/generate_204" ∷ "https://cp.cloudflare.com"
        ∷ "https://google.com/generate_204" ∷ [])) in
    let secret =
      if same hopt.clash_api_secret "" then env.random_text 16 else hopt.clash_api_secret in
    if hopt.enable_clash_api
    then (
      record options {
        experimental = some (record {
          controller_port = hopt.clash_api_port;
          secret = secret;
          urls = urls;
          interval = hopt.url_test_interval * second;
          debounce_window = 500000000;
          idle_timeout = hopt.url_test_interval * second * 3;
        });
      },
      record hopt { connection_test_urls = urls; clash_api_secret = secret },
    )
    else (options, record hopt { connection_test_urls = urls })

unfoldable pub set_log : Options → InhiveOptions → Options
set_log options opt = record options {
  log = some (record { level = opt.log_level; output = opt.log_file });
}

unfoldable pub is_ipv6_supported : Env → Bool
is_ipv6_supported env = if env.is_ios || env.is_darwin then true else env.ipv6_resolves

abbrev pub added : Bool → Inbound → List Inbound
added true i = i ∷ []
added false i = []

abbrev pub tproxy_inbounds : Env → InhiveOptions → String → List Inbound
tproxy_inbounds env hopt bind =
    added (env.is_linux && not env.is_android && ltb 0 hopt.tproxy_port && env.is_admin)
      (record { tag = join inbound_tproxy bind; options = tproxy bind hopt.tproxy_port })

abbrev pub redirect_inbounds : Env → InhiveOptions → String → List Inbound
redirect_inbounds env hopt bind =
    added ((env.is_linux || env.is_darwin) && not env.is_android && ltb 0 hopt.redirect_port)
      (record { tag = join inbound_redirect bind; options = redirect bind hopt.redirect_port })

abbrev pub direct_inbounds : InhiveOptions → String → List Inbound
direct_inbounds hopt bind =
    added (ltb 0 hopt.direct_port)
      (record { tag = join inbound_direct_tag bind; options = direct_in bind hopt.direct_port })

abbrev pub mixed_inbound : InhiveOptions → String → Inbound
mixed_inbound hopt bind = record {
  tag = join inbound_mixed_tag bind;
  options = mixed bind hopt.mixed_port hopt.set_system_proxy;
}

-- One round of the loop over the addresses to bind.
unfoldable pub bind_inbounds : Env → InhiveOptions → String → List Inbound
bind_inbounds env hopt bind =
    mixed_inbound hopt bind
    ∷ (tproxy_inbounds env hopt bind
        ++ (redirect_inbounds env hopt bind ++ direct_inbounds hopt bind))

unfoldable pub all_binds : Env → InhiveOptions → List String → List Inbound
unfolding bind_inbounds
all_binds env hopt [] = []
all_binds env hopt (bind ∷ binds) = bind_inbounds env hopt bind ++ all_binds env hopt binds

abbrev pub tun_inbound : Bool → InhiveOptions → Inbound
tun_inbound ipv6 hopt = record {
  tag = inbound_tun_tag;
  options =
      tun hopt.tun_stack hopt.mtu hopt.strict_route
        (if ipv6 then "172.19.0.1/28" ∷ "fdfe:dcba:9876::1/126" ∷ [] else "172.19.0.1/28" ∷ []);
}

unfoldable pub binds_of : Bool → Bool → List String
binds_of lan ipv6 =
    if lan
    then (if ipv6 then "::" ∷ [] else "0.0.0.0" ∷ [])
    else if ipv6
    then "::1" ∷ "127.0.0.1" ∷ []
    else "127.0.0.1" ∷ []

unfoldable pub set_inbound : Env → Options → InhiveOptions → Options
unfolding all_binds is_ipv6_supported binds_of
set_inbound env options hopt =
    let ipv6 = is_ipv6_supported env in
    record options {
      inbounds =
          (options.inbounds ++ added hopt.enable_tun (tun_inbound ipv6 hopt))
          ++ all_binds env hopt (binds_of hopt.allow_connection_from_lan ipv6);
    }
