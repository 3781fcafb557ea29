-- ===== src/Config/SingBox.antt =====
-- The part of sing-box's option structs that v2/config fills in. A Go `any` that holds one of
-- several structs is a data type with a constructor for each; durations are nanoseconds.
use inhive_core.Prelude.{ℕ, String, Bool, List, Option}

pub data DnsRcode : Type 0 where
  success format_error server_failure name_error not_implemented refused : DnsRcode

pub data QueryType : Type 0 where
  a_record aaaa_record : QueryType

pub record DnsRoute : Type 0 where
  pub server : String
  pub strategy : ℕ
  pub rewrite_ttl : ℕ
  pub disable_cache : Bool

pub data DnsAction : Type 0 where
  route : DnsRoute → DnsAction
  predefined : DnsRcode → DnsAction

pub record DnsRule : Type 0 where
  pub domain : List String
  pub domain_suffix : List String
  pub rule_set : List String
  pub query_type : List QueryType
  pub action : DnsAction

pub record Dialer : Type 0 where
  pub detour : String
  pub domain_resolver : String

pub record RemoteServer : Type 0 where
  pub dialer : Dialer
  pub server : String
  pub server_port : ℕ
  pub connect_timeout : ℕ
  pub disable_tcp_keep_alive : Bool

pub record HttpsServer : Type 0 where
  pub remote : RemoteServer
  pub path : String
  pub fragment : Bool
  pub record_fragment : Bool
  pub fragment_fallback_delay : ℕ

pub data DnsServerOptions : Type 0 where
  local_server : Dialer → DnsServerOptions
  udp_server tcp_server : RemoteServer → DnsServerOptions
  tls_server : RemoteServer → DnsServerOptions
  https_server : HttpsServer → DnsServerOptions
  rcode_server : DnsRcode → DnsServerOptions
  dhcp_server : String → DnsServerOptions
  fake_ip_server : Option (String × String) → DnsServerOptions
  hosts_server : List (String × List String) → DnsServerOptions

pub record DnsServer : Type 0 where
  pub tag : String
  pub server_type : String
  pub options : DnsServerOptions

pub record DnsOptions : Type 0 where
  pub independent_cache : Bool
  pub disable_expire : Bool
  pub final : String
  pub servers : List DnsServer
  pub rules : List DnsRule

pub data RouteAction : Type 0 where
  sniff hijack_dns reject : RouteAction
  route_to : String → RouteAction

pub record RouteRule : Type 0 where
  pub protocol : List String
  pub ip_cidr : List String
  pub ip_is_private : Bool
  pub domain : List String
  pub domain_suffix : List String
  pub rule_set : List String
  pub action : RouteAction

pub record RuleSet : Type 0 where
  pub tag : String
  pub url : String
  pub update_interval : ℕ
  pub download_detour : String

pub record RouteOptions : Type 0 where
  pub rules : List RouteRule
  pub final : String
  pub auto_detect_interface : Bool
  pub default_resolver : String
  pub default_strategy : ℕ
  pub rule_sets : List RuleSet

-- Whether a Go interface holds the struct itself or a pointer to it.
pub data Boxing : Type 0 where
  by_pointer by_value : Boxing

pub data TransportType : Type 0 where
  websocket grpc http_upgrade other_transport : TransportType

pub record TlsOptions : Type 0 where
  pub enabled : Bool
  pub reality : Option Bool
  pub mixed_case_sni : Option Bool

-- A proxy protocol: `tls` is none where the struct is no TLS wrapper or holds a nil pointer,
-- `detour` where it is no dialer wrapper; `details` stands for the other fields.
pub record Proxy : Type 0 where
  pub boxing : Boxing
  pub tls : Option TlsOptions
  pub transport : Option TransportType
  pub detour : Option String
  pub details : String

pub record Balancer : Type 0 where
  pub outbounds : List String
  pub strategy : String
  pub delay_acceptable_ratio : ℕ
  pub tolerance : ℕ
  pub interrupt_exist_connections : Bool

pub record Selector : Type 0 where
  pub outbounds : List String
  pub default : String
  pub interrupt_exist_connections : Bool

pub data OutboundOptions : Type 0 where
  proxy : Proxy → OutboundOptions
  balancer_group : Balancer → OutboundOptions
  selector_group : Selector → OutboundOptions
  direct_dial : OutboundOptions

pub data OutboundType : Type 0 where
  block dns_out selector url_test custom psiphon direct balancer vless trojan vmess : OutboundType
  other_outbound : String → OutboundType

pub record Outbound : Type 0 where
  pub outbound_type : OutboundType
  pub tag : String
  pub options : OutboundOptions

pub record WarpEndpoint : Type 0 where
  pub unique_identifier : String
  pub profile_detour : String
  pub server : String
  pub server_port : ℕ
  pub detour : String
  pub mtu : ℕ

pub record WireGuardPeer : Type 0 where
  pub address : String
  pub port : ℕ
  pub public_key : String

-- `noise` is empty for the zero value of the struct.
pub record WireGuard : Type 0 where
  pub private_key : String
  pub peers : List WireGuardPeer
  pub detour : String
  pub mtu : ℕ
  pub noise : String

pub data EndpointOptions : Type 0 where
  warp_options : WarpEndpoint → EndpointOptions
  wire_guard_options : WireGuard → EndpointOptions
  other_options : String → EndpointOptions

pub data EndpointType : Type 0 where
  warp wire_guard : EndpointType
  other_endpoint : String → EndpointType

pub record Endpoint : Type 0 where
  pub endpoint_type : EndpointType
  pub tag : String
  pub options : EndpointOptions

pub data InboundOptions : Type 0 where
  tun : (stack : String) (mtu : ℕ) (strict_route : Bool) (address : List String) → InboundOptions
  mixed : (listen : String) (port : ℕ) (set_system_proxy : Bool) → InboundOptions
  tproxy redirect direct_in : (listen : String) (port : ℕ) → InboundOptions
  other_inbound : String → InboundOptions

pub record Inbound : Type 0 where
  pub tag : String
  pub options : InboundOptions

pub record NtpOptions : Type 0 where
  pub enabled : Bool
  pub server : String
  pub server_port : ℕ
  pub interval : ℕ
  pub detour : String

pub record LogOptions : Type 0 where
  pub level : String
  pub output : String

pub record Experimental : Type 0 where
  pub controller_port : ℕ
  pub secret : String
  pub urls : List String
  pub interval : ℕ
  pub debounce_window : ℕ
  pub idle_timeout : ℕ

pub record Options : Type 0 where
  pub log : Option LogOptions
  pub ntp : Option NtpOptions
  pub experimental : Option Experimental
  pub inbounds : List Inbound
  pub outbounds : List Outbound
  pub endpoints : List Endpoint
  pub dns : Option DnsOptions
  pub route : Option RouteOptions
