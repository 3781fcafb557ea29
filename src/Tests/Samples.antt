-- ===== src/Tests/Samples.antt =====
-- An environment, settings and a configuration with two proxies.
use inhive_core.Prelude.{
  String, true, false, ◌||◌, [], ◌∷◌, none, some, Outcome, ok, fail, panic, same, has_prefix,
  if◌then◌else◌,
}
use inhive_core.Config.SingBox.{Options, Outbound, vless, proxy, Proxy, by_pointer}
use inhive_core.Config.Env.{Env, Url}
use inhive_core.Config.Build.{no_options}

abbrev pub value_of {ℓ} : {A : Type ℓ} → A → Outcome A → A
value_of d (ok a) = a
value_of d (fail e) = d
value_of d panic = d

abbrev sample_url : String → Url
sample_url s =
    if has_prefix s "udp://"
    then record { scheme = "udp"; host = "1.1.1.1"; path = "" }
    else if has_prefix s "https://"
    then record { scheme = "https"; host = "8.8.8.8"; path = "/dns-query" }
    else record { scheme = ""; host = ""; path = s }

abbrev pub sample_env : Env
sample_env = record {
  parse_url = λ s. some (sample_url s);
  is_ip = λ s. same s "1.1.1.1" || same s "8.8.8.8";
  trim_brackets = λ s. s;
  parse_socksaddr = λ s. some (s, 0);
  parse_addr = λ s. true;
  atoi = λ s. none;
  after_last_fragment = λ s. s;
  get_ips = λ s. [];
  random_text = λ n. "x";
  random_warp_v4 = "162.159.192.1";
  random_warp_v6 = "2606:4700:d0::1";
  random_warp_port = 2408;
  map_order = λ xs. xs;
  ipv6_resolves = true;
  is_admin = false;
  is_ios = false;
  is_android = false;
  is_darwin = false;
  is_linux = true;
  dns_rule_is_valid = λ r. true;
}

abbrev pub sample_proxy : Proxy
sample_proxy = record {
  boxing = by_pointer;
  tls = none;
  transport = none;
  detour = none;
  details = "";
}

abbrev pub sample_outbound : String → Outbound
sample_outbound tag = record { outbound_type = vless; tag = tag; options = proxy sample_proxy }

abbrev pub sample_input : Options
sample_input = record no_options { outbounds = sample_outbound "one" ∷ sample_outbound "two" ∷ [] }
