-- ===== src/Share/Parsers.antt =====
-- xray2sing/ray2sing/vless.go and trojan.go.
pub mod Normal
use inhive_core.Prelude.{
  ℕ, String, Bool, not, ◌&&◌, List, Option, none, some, Outcome, ok, fail, ◌>>=◌, same, join,
  if◌then◌else◌,
}
use inhive_core.Share.Library.{Library}
use inhive_core.Share.Query.{Params, get, set, normalize_vless_flow, normalize_packet_encoding}
use inhive_core.Share.Tls.{Tls, Multiplex, get_tls_options, get_mux_options}
use inhive_core.Share.Transport.{Transport, get_transport_options}
use inhive_core.Share.Url.{UrlSchema, parse_url}

pub record VlessOutbound : Type 0 where
  pub tag : String
  pub server : String
  pub server_port : ℕ
  pub uuid : String
  pub packet_encoding : String
  pub flow : String
  pub tls : Option Tls
  pub transport : Option Transport
  pub multiplex : Option Multiplex

unfoldable pub packet_encoding_of : Library → Params → String
packet_encoding_of l d =
    if same (get d "packetencoding") ""
    then "xudp"
    else normalize_packet_encoding l (get d "packetencoding")

abbrev pub has_encryption : Params → Bool
has_encryption d = not (same (get d "encryption") "") && not (same (get d "encryption") "none")

unfoldable pub vless_outbound :
    Library → UrlSchema → String → Option Transport × Params → VlessOutbound
vless_outbound l u flow t = record {
  tag = u.name;
  server = u.hostname;
  server_port = u.port;
  uuid = u.username;
  packet_encoding = packet_encoding_of l t.1;
  flow = flow;
  tls = get_tls_options l t.1;
  transport = t.0;
  multiplex = get_mux_options l t.1;
}

unfoldable pub vless_parsed : Library → UrlSchema → Outcome VlessOutbound
vless_parsed l u =
    if has_encryption u.params
    then fail (
        join "VLESS encryption not supported yet (got '" (
          join (get u.params "encryption")
            "'); needs the ML-KEM/x25519plus handshake which sing-box has not implemented"))
    else (do
      flow ← normalize_vless_flow l (get u.params "flow")
      transport ← get_transport_options l u.params
      ok (vless_outbound l u flow transport))

unfoldable pub vless_singbox : Library → String → Outcome VlessOutbound
vless_singbox l vless_url = do u ← parse_url l vless_url 443; vless_parsed l u

pub record TrojanOutbound : Type 0 where
  pub tag : String
  pub server : String
  pub server_port : ℕ
  pub password : String
  pub tls : Option Tls
  pub transport : Option Transport
  pub multiplex : Option Multiplex

-- TLS is the default.
unfoldable pub trojan_params : Params → Params
trojan_params d =
    if same (get d "security") "" && same (get d "tls") "" then set "security" "tls" d else d

abbrev pub has_flow : Params → Bool
has_flow d = not (same (get d "flow") "") && not (same (get d "flow") "none")

unfoldable pub whole_password : UrlSchema → String
whole_password u = if same u.password "" then u.username else join u.username (join ":" u.password)

unfoldable pub trojan_outbound : Library → UrlSchema → Option Transport × Params → TrojanOutbound
trojan_outbound l u t = record {
  tag = u.name;
  server = u.hostname;
  server_port = u.port;
  password = whole_password u;
  tls = get_tls_options l t.1;
  transport = t.0;
  multiplex = get_mux_options l t.1;
}

unfoldable pub trojan_parsed : Library → UrlSchema → Outcome TrojanOutbound
trojan_parsed l u =
    let d = trojan_params u.params in
    if has_flow d
    then fail (
        join "Trojan flow '" (
          join (get d "flow")
            "' (XTLS-Vision) not supported: sing-box TrojanOutboundOptions has no flow field"))
    else (do transport ← get_transport_options l d; ok (trojan_outbound l u transport))

unfoldable pub trojan_singbox : Library → String → Outcome TrojanOutbound
trojan_singbox l trojan_url = do u ← parse_url l trojan_url 443; trojan_parsed l u
