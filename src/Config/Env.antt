-- ===== src/Config/Env.antt =====
-- What the builder asks of code and of a machine outside this repository: the URL and address parsers
-- of Go and sing, the resolver, random values, the platform, and sing-box's own rule check.
use inhive_core.Prelude.{ℕ, String, Bool, List, Option}
use inhive_core.Config.SingBox.{DnsRule}

pub record Url : Type 0 where
  pub scheme : String
  pub host : String
  pub path : String

pub record Env : Type 0 where
  pub parse_url : String → Option Url
  pub is_ip : String → Bool
  pub trim_brackets : String → String
  pub parse_socksaddr : String → Option (String × ℕ)
  pub parse_addr : String → Bool
  pub atoi : String → Option ℕ
  pub after_last_fragment : String → String
  pub get_ips : String → List String
  pub random_text : ℕ → String
  pub random_warp_v4 : String
  pub random_warp_v6 : String
  pub random_warp_port : ℕ
  pub map_order : List String → List String
  pub ipv6_resolves : Bool
  pub is_admin : Bool
  pub is_ios : Bool
  pub is_android : Bool
  pub is_darwin : Bool
  pub is_linux : Bool
  pub dns_rule_is_valid : DnsRule → Bool
