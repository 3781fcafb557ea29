-- ===== src/Config/Settings.antt =====
-- `InhiveOptions` of v2/config/inhive_option.go: the fields that the builder reads. The groups that
-- the source embeds are flat here; strategies are sing-box's numbers.
use inhive_core.Prelude.{ℕ, String, Bool, true, false, List, []}

pub data WarpMode : Type 0 where
  warp_over_proxy proxy_over_warp : WarpMode
  other_mode : String → WarpMode

pub record WarpOptions : Type 0 where
  pub enable_warp : Bool
  pub mode : WarpMode
  pub private_key : String

pub record InhiveOptions : Type 0 where
  pub enable_full_config : Bool
  pub log_level : String
  pub log_file : String
  pub enable_clash_api : Bool
  pub clash_api_port : ℕ
  pub clash_api_secret : String
  pub region : String
  pub block_ads : Bool
  pub use_xray_core_when_possible : Bool
  pub balancer_strategy : String
  pub warp : WarpOptions
  pub mixed_sni_case : Bool
  pub remote_dns_address : String
  pub remote_dns_strategy : ℕ
  pub direct_dns_address : String
  pub direct_dns_strategy : ℕ
  pub independent_dns_cache : Bool
  pub enable_fake_dns : Bool
  pub enable_tun : Bool
  pub enable_tun_service : Bool
  pub set_system_proxy : Bool
  pub mixed_port : ℕ
  pub tproxy_port : ℕ
  pub redirect_port : ℕ
  pub direct_port : ℕ
  pub mtu : ℕ
  pub strict_route : Bool
  pub tun_stack : String
  pub connection_test_url : String
  pub connection_test_urls : List String
  pub url_test_interval : ℕ
  pub bypass_lan : Bool
  pub allow_connection_from_lan : Bool
  pub block_quic : Bool

-- `DefaultInhiveOptions`; the strategy "as is" is sing-box's zero value.
unfoldable pub default_inhive_options : InhiveOptions
default_inhive_options = record {
  enable_full_config = false;
  log_level = "debug";
  log_file = "data/box.log";
  enable_clash_api = true;
  clash_api_port = 16756;
  clash_api_secret = "";
  region = "other";
  block_ads = false;
  use_xray_core_when_possible = false;
  balancer_strategy = "";
  warp = record { enable_warp = false; mode = other_mode ""; private_key = "" };
  mixed_sni_case = false;
  remote_dns_address = "1.1.1.1";
  remote_dns_strategy = 0;
  direct_dns_address = "1.1.1.1";
  direct_dns_strategy = 0;
  independent_dns_cache = false;
  enable_fake_dns = false;
  enable_tun = false;
  enable_tun_service = false;
  set_system_proxy = false;
  mixed_port = 12334;
  tproxy_port = 12335;
  redirect_port = 12336;
  direct_port = 12337;
  mtu = 9000;
  strict_route = true;
  tun_stack = "mixed";
  connection_test_url = "http://cp.cloudflare.com/";
  connection_test_urls = [];
  url_test_interval = 600;
  bypass_lan = false;
  allow_connection_from_lan = false;
  block_quic = false;
}
