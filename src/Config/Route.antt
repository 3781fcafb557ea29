-- ===== src/Config/Route.antt =====
-- v2/config/builder_route.go: `setRoutingOptions`, a part for each test in the source. A part adds
-- to the three lists that the function builds, in the source's order.
use inhive_core.Prelude.{
  ◌*◌, String, true, false, not, ◌&&◌, ◌||◌, List, [], ◌∷◌, ◌++◌, Option, none, some, Outcome, ok,
  panic, same, join, select, if◌then◌else◌,
}
use inhive_core.Config.Tags.{
  dns_fake_tag, dns_multi_direct_tag, dns_multi_remote_tag, outbound_direct_tag,
  outbound_select_tag,
}
use inhive_core.Config.SingBox.{
  Options, DnsOptions, DnsRule, predefined, refused, a_record, aaaa_record, RouteRule, RouteAction,
  sniff, hijack_dns, reject, route_to, RuleSet, NtpOptions, RouteOptions,
}
use inhive_core.Config.Settings.{InhiveOptions}
use inhive_core.Config.Env.{Env}
use inhive_core.Config.Dns.{to_server, no_match, add_force_direct}
use inhive_core.Config.Inbounds.{second}

pub record RuleLists : Type 0 where
  pub dns : List DnsRule
  pub routes : List RouteRule
  pub rule_sets : List RuleSet

abbrev pub no_rules : RuleLists
no_rules = record { dns = []; routes = []; rule_sets = [] }

infixr 65 ◌then_add◌
abbrev pub ◌then_add◌ : RuleLists → RuleLists → RuleLists
a then_add b = record {
  dns = a.dns ++ b.dns;
  routes = a.routes ++ b.routes;
  rule_sets = a.rule_sets ++ b.rule_sets;
}

abbrev pub any_route : RouteAction → RouteRule
any_route action = record {
  protocol = [];
  ip_cidr = [];
  ip_is_private = false;
  domain = [];
  domain_suffix = [];
  rule_set = [];
  action = action;
}

abbrev direct_route : RouteRule
direct_route = any_route (route_to outbound_direct_tag)

-- Sniffing, the capture of DNS, and the addresses of a blocking page.
unfoldable pub first_rules : Env → InhiveOptions → String → RuleLists
unfolding add_force_direct
first_rules env hopt main_detour = record {
  dns = add_force_direct env hopt;
  routes =
      any_route sniff
      ∷ record (any_route hijack_dns) { protocol = "dns" ∷ [] }
      ∷ record (any_route (route_to main_detour)) {
        ip_cidr = "10.10.34.0/24" ∷ "2001:4188:2:600:10:10:34:0/120" ∷ [];
      }
      ∷ [];
  rule_sets = [];
}

unfoldable pub lan_rules : InhiveOptions → RuleLists
lan_rules hopt =
    if hopt.bypass_lan
    then record {
      dns = [];
      routes = record direct_route { ip_is_private = true } ∷ [];
      rule_sets = [];
    }
    else no_rules

abbrev pub ntp_servers : Option NtpOptions → List String
ntp_servers none = []
ntp_servers (some ntp) = if ntp.enabled then ntp.server ∷ [] else []

abbrev pub direct_domains : InhiveOptions → List String → RuleLists
direct_domains hopt [] = no_rules
direct_domains hopt (d ∷ domains) = record {
  dns =
      to_server dns_multi_direct_tag hopt.direct_dns_strategy false
        (record no_match { domain = d ∷ domains })
      ∷ [];
  routes = record direct_route { domain = d ∷ domains } ∷ [];
  rule_sets = [];
}

unfoldable pub ntp_rules : Option NtpOptions → InhiveOptions → RuleLists
ntp_rules ntp hopt = direct_domains hopt (ntp_servers ntp)

abbrev remote_rule_set : String → String → RuleSet
remote_rule_set tag url = record {
  tag = tag;
  url = url;
  update_interval = 5 * 3600 * 24 * second;
  download_detour = outbound_select_tag;
}

abbrev geo_url : String → String
geo_url name = join "https://raw.githubusercontent.com/SagerNet/" name

unfoldable pub ads_rules : InhiveOptions → RuleLists
ads_rules hopt =
    if hopt.block_ads
    then record {
      dns = record no_match { rule_set = "geosite-ads" ∷ []; action = predefined refused } ∷ [];
      routes = record (any_route reject) { rule_set = "geosite-ads" ∷ [] } ∷ [];
      rule_sets =
          remote_rule_set "geosite-ads"
            (geo_url "sing-geosite/rule-set/geosite-category-ads-all.srs")
          ∷ [];
    }
    else no_rules

abbrev srs : String → String → String
srs folder name = geo_url (join folder (join name ".srs"))

unfoldable pub region_rules : InhiveOptions → RuleLists
region_rules hopt =
    if same hopt.region "other"
    then no_rules
    else let suffix = join "." hopt.region in
      let geoip = join "geoip-" hopt.region in
      let geosite = join "geosite-" hopt.region in
      record {
        dns =
            to_server dns_multi_direct_tag hopt.direct_dns_strategy false
              (record no_match { domain_suffix = suffix ∷ [] })
            ∷ to_server dns_multi_direct_tag hopt.direct_dns_strategy false
                (record no_match { rule_set = geosite ∷ [] })
            ∷ [];
        routes =
            record direct_route { domain_suffix = suffix ∷ [] }
            ∷ record direct_route { rule_set = geoip ∷ geosite ∷ [] }
            ∷ [];
        rule_sets =
            remote_rule_set geoip (srs "sing-geoip/rule-set/" geoip)
            ∷ remote_rule_set geosite (srs "sing-geosite/rule-set/" geosite)
            ∷ [];
      }

unfoldable pub quic_rules : InhiveOptions → RuleLists
quic_rules hopt =
    if hopt.block_quic
    then record {
      dns = [];
      routes = record (any_route reject) { protocol = "quic" ∷ [] } ∷ [];
      rule_sets = [];
    }
    else no_rules

-- The rules that follow the assignment of `options.Route`.
unfoldable pub last_rules : InhiveOptions → RuleLists
last_rules hopt =
    let fake =
      to_server dns_fake_tag hopt.remote_dns_strategy true
        (record no_match { query_type = a_record ∷ aaaa_record ∷ [] }) in
    let rest = to_server dns_multi_remote_tag hopt.remote_dns_strategy false no_match in
    record {
      dns = if hopt.enable_fake_dns then fake ∷ rest ∷ [] else rest ∷ [];
      routes = [];
      rule_sets = [];
    }

unfoldable pub all_rules : Env → Option NtpOptions → InhiveOptions → String → RuleLists
all_rules env ntp hopt main_detour =
    first_rules env hopt main_detour
    then_add lan_rules hopt
    then_add ntp_rules ntp hopt
    then_add ads_rules hopt
    then_add region_rules hopt
    then_add quic_rules hopt
    then_add last_rules hopt

abbrev pub route_options : Env → InhiveOptions → String → RuleLists → RouteOptions
route_options env hopt main_detour rules = record {
  rules = rules.routes;
  final = main_detour;
  auto_detect_interface =
      (not env.is_android && not env.is_ios) && (hopt.enable_tun || hopt.enable_tun_service);
  default_resolver = dns_multi_direct_tag;
  default_strategy = hopt.direct_dns_strategy;
  rule_sets = rules.rule_sets;
}

abbrev pub with_rules : Env → DnsOptions → RuleLists → DnsOptions
with_rules env dns rules = record dns {
  rules = dns.rules ++ select env.dns_rule_is_valid rules.dns;
}

-- The loop at the end writes through `options.DNS`, which panics where it is nil.
unfoldable pub set_routing_options : Env → Options → InhiveOptions → String → Outcome Options
set_routing_options env options hopt main_detour = elim options.dns [
  | none ↦ panic
  | some dns ↦
      let rules = all_rules env options.ntp hopt main_detour in
      ok (record options {
        route = some (route_options env hopt main_detour rules);
        dns = some (with_rules env dns rules);
      })
]
