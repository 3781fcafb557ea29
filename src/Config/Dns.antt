-- ===== src/Config/Dns.antt =====
-- v2/config/dns.go: the DNS servers, and the rules that come before all others.
pub mod Server
use inhive_core.Prelude.{
  ℕ, String, Bool, true, false, not, ◌&&◌, ◌||◌, List, [], ◌∷◌, ◌++◌, Option, none, some, Outcome,
  ok, fail, panic, ◌>>=◌, same, join, has_prefix, has_part, if◌then◌else◌,
}
use inhive_core.Config.Tags.{
  dns_remote_tag, dns_remote_tag_fallback, dns_local_tag, dns_static_tag, dns_direct_tag,
  dns_remote_no_warp_tag, dns_fake_tag, dns_tricks_direct_tag, dns_multi_direct_tag,
  dns_multi_remote_tag, outbound_direct_fragment_tag,
}
use inhive_core.Config.SingBox.{
  Options, DnsOptions, DnsServer, fake_ip_server, hosts_server, DnsRule, route,
}
use inhive_core.Config.Settings.{InhiveOptions}
use inhive_core.Config.Env.{Env}
use inhive_core.Config.Helpers.{contains, get_hostname_if_not_ip}
use Server.{get_dns_server_options}

abbrev pub default_dns_ttl : ℕ
default_dns_ttl = 86400

unfoldable pub get_dns_address : String → String
get_dns_address d = if has_part d "://" then d else join "udp://" d

pub record DnsEntry : Type 0 where
  pub tag : String
  pub addr : String
  pub fallback : String
  pub detour : String

unfoldable pub direct_detour : String → String
direct_detour address =
    if has_prefix address "udp://" || not (has_part address "://")
    then ""
    else outbound_direct_fragment_tag

abbrev google_dns : String
google_dns = "https://8.8.8.8/dns-query"

unfoldable pub fallback_address : String → String
fallback_address remote = if same remote google_dns then "https://1.0.0.1/dns-query" else google_dns

-- The table `entries` of `setDns`.
unfoldable pub dns_entries : InhiveOptions → String → List DnsEntry
dns_entries opt main_detour =
    let remote = get_dns_address opt.remote_dns_address in
    record { tag = dns_remote_tag; addr = remote; fallback = dns_direct_tag; detour = main_detour }
    ∷ record {
      tag = dns_remote_tag_fallback;
      addr = fallback_address remote;
      fallback = dns_direct_tag;
      detour = main_detour;
    }
    ∷ record {
      tag = dns_remote_no_warp_tag;
      addr = opt.remote_dns_address;
      fallback = dns_direct_tag;
      detour = outbound_direct_fragment_tag;
    }
    ∷ record {
      tag = dns_direct_tag;
      addr = opt.direct_dns_address;
      fallback = dns_local_tag;
      detour = direct_detour opt.direct_dns_address;
    }
    ∷ record {
      tag = dns_tricks_direct_tag;
      addr = "https://dns.cloudflare.com/dns-query#fragment=300";
      fallback = dns_direct_tag;
      detour = outbound_direct_fragment_tag;
    }
    ∷ record { tag = dns_local_tag; addr = "local"; fallback = ""; detour = "" }
    ∷ []

unfoldable pub dns_servers : Env → List DnsEntry → Outcome (List DnsServer)
dns_servers env [] = ok []
dns_servers env (e ∷ es) = do
  s ← get_dns_server_options env e.tag e.addr e.fallback e.detour
  ss ← dns_servers env es
  ok (s ∷ ss)

all_addresses : Env → List String → Bool
all_addresses env [] = true
all_addresses env (ip ∷ ips) = env.parse_addr ip && all_addresses env ips

all_parsed : Env → List (String × List String) → Bool
unfolding all_addresses
all_parsed env [] = true
all_parsed env ((domain, ips) ∷ rest) = all_addresses env ips && all_parsed env rest

unfoldable pub get_static_dns_server_options :
    Env → String → List (String × List String) → Outcome DnsServer
unfolding all_parsed
get_static_dns_server_options env tag static_ips =
    if all_parsed env static_ips
    then ok (record { tag = tag; server_type = "hosts"; options = hosts_server static_ips })
    else fail "unable to parse IP"

abbrev pub fake_ip : DnsServer
fake_ip = record {
  tag = dns_fake_tag;
  server_type = "fakeip";
  options = fake_ip_server (some ("198.18.0.0/15", "fc00::/18"));
}

abbrev pub fake_servers : Bool → List DnsServer
fake_servers true = fake_ip ∷ []
fake_servers false = []

abbrev pub dns_options : Env → InhiveOptions → DnsServer → List DnsServer → DnsOptions
dns_options env opt static_dns servers = record {
  independent_cache = opt.independent_dns_cache && not env.is_ios;
  disable_expire = true;
  final = dns_multi_remote_tag;
  servers = (static_dns ∷ servers) ++ fake_servers opt.enable_fake_dns;
  rules = [];
}

unfoldable pub set_dns :
    Env → Options → InhiveOptions → String → List (String × List String) → Outcome Options
unfolding dns_servers dns_entries get_static_dns_server_options
set_dns env options opt main_detour static_ips = do
  servers ← dns_servers env (dns_entries opt main_detour)
  static_dns ← get_static_dns_server_options env dns_static_tag static_ips
  ok (record options { dns = some (dns_options env opt static_dns servers) })

-- `option.DNSRouteActionOptions` with the time to live that every rule here has.
abbrev pub to_server : String → ℕ → Bool → DnsRule → DnsRule
to_server server strategy disable_cache rule = record rule {
  action = route (record {
    server = server;
    strategy = strategy;
    rewrite_ttl = default_dns_ttl;
    disable_cache = disable_cache;
  });
}

abbrev pub no_match : DnsRule
no_match = record {
  domain = [];
  domain_suffix = [];
  rule_set = [];
  query_type = [];
  action = route (record { server = ""; strategy = 0; rewrite_ttl = 0; disable_cache = false });
}

abbrev cloudflare_client : String
cloudflare_client = "api.cloudflareclient.com"

-- The keys of `dnsMap`; a name that is there already stays where it is.
unfoldable pub force_direct_domains : Env → List String → List String → List String
unfolding get_hostname_if_not_ip
force_direct_domains env keys [] = keys
force_direct_domains env keys (url ∷ urls) = elim (get_hostname_if_not_ip env url) [
  | ok host ↦ force_direct_domains env (if contains keys host then keys else keys ++ host ∷ []) urls
  | _ ↦ force_direct_domains env keys urls
]

unfoldable pub add_force_direct : Env → InhiveOptions → List DnsRule
unfolding force_direct_domains
add_force_direct env hopt =
    to_server dns_remote_no_warp_tag hopt.direct_dns_strategy false
      (record no_match { domain = cloudflare_client ∷ [] })
    ∷ to_server dns_multi_direct_tag hopt.direct_dns_strategy false (record no_match {
      domain =
          env.map_order
            (force_direct_domains env (cloudflare_client ∷ []) hopt.connection_test_urls);
    })
    ∷ []
