-- ===== src/Config/Dns/Server.antt =====
-- `getDNSServerOptions` of v2/config/dns.go: one DNS server from its address.
pub mod Dialers
use inhive_core.Prelude.{
  ℕ, ◌*◌, String, Bool, true, false, not, ◌&&◌, ◌||◌, List, [], ◌∷◌, Option, none, some, Outcome,
  ok, fail, panic, ◌>>=◌, same, has_part, ◌==◌, if◌then◌else◌,
}
use inhive_core.Config.SingBox.{
  DnsServer, DnsServerOptions, local_server, udp_server, tcp_server, tls_server, https_server,
  rcode_server, dhcp_server, fake_ip_server, Dialer, RemoteServer, HttpsServer, DnsRcode, success,
  format_error, server_failure, name_error, not_implemented, refused,
}
use inhive_core.Config.Env.{Env, Url}
use inhive_core.Config.Helpers.{get_hostname_if_not_ip}

-- The scheme of the address, or a type by its own name.
unfoldable pub server_type : Option Url → String → String
server_type none dnsurl = if same dnsurl "local" || same dnsurl "fakeip" then dnsurl else "udp"
server_type (some u) dnsurl =
    if same u.scheme ""
    then (if same dnsurl "local" || same dnsurl "fakeip" then dnsurl else "udp")
    else u.scheme

abbrev is_hostname : Outcome String → Bool
is_hostname (ok host) = not (same host "")
is_hostname (fail e) = false
is_hostname panic = false

pub remote_options : Env → String → String → String → RemoteServer
remote_options env dnsurl domain_resolver detour = record {
  dialer = record {
    detour = detour;
    domain_resolver =
        if is_hostname (get_hostname_if_not_ip env dnsurl) then domain_resolver else "";
  };
  server = "";
  server_port = 0;
  connect_timeout = 0;
  disable_tcp_keep_alive = false;
}

abbrev no_address {ℓ} : {A : Type ℓ} → Outcome A
no_address = fail "invalid server address"

-- A server's address and port; a port that is the protocol's own is left out.
with_address : Env → String → ℕ → RemoteServer → Outcome RemoteServer
with_address env host usual remote = elim (env.parse_socksaddr host) [
  | none ↦ no_address
  | some (addr, port) ↦ ok (record remote {
    server = addr;
    server_port = if not (port == 0) && not (port == usual) then port else 0;
  })
]

abbrev host_of : Option Url → String → String
host_of none dnsurl = dnsurl
host_of (some u) dnsurl = if same u.scheme "" then dnsurl else u.host

-- The cases past the first two return an error where the address does not parse as a URL.
abbrev or_no_address {ℓ} : {A : Type ℓ} → Option Url → (Url → Outcome A) → Outcome A
or_no_address none f = no_address
or_no_address (some u) f = f u

fragment_delay : Env → String → ℕ
fragment_delay env dnsurl = elim (env.atoi (env.after_last_fragment dnsurl)) [
  | none ↦ 0
  | some delay ↦ delay * 1000000
]

https_options : Env → String → Url → RemoteServer → HttpsServer
unfolding fragment_delay
https_options env dnsurl u remote =
    let split = has_part dnsurl "#fragment=" in
    record {
      remote = remote;
      path = if same u.path "/dns-query" then "" else u.path;
      fragment = split;
      record_fragment = split;
      fragment_fallback_delay = if split then fragment_delay env dnsurl else 0;
    }

rcode_of : String → Outcome DnsRcode
rcode_of host =
    if same host "success"
    then ok success
    else if same host "format_error"
    then ok format_error
    else if same host "server_failure"
    then ok server_failure
    else if same host "name_error"
    then ok name_error
    else if same host "not_implemented"
    then ok not_implemented
    else if same host "refused"
    then ok refused
    else fail "unknown rcode"

udp : Env → String → Option Url → RemoteServer → Outcome DnsServerOptions
unfolding with_address
udp env dnsurl url remote = do
  r ← with_address env (host_of url dnsurl) 53 remote
  ok (udp_server (record r { connect_timeout = 5000000000; disable_tcp_keep_alive = true }))

-- The `switch` on the server's type.
unfoldable pub server_options :
    Env → String → String → Option Url → RemoteServer → Outcome DnsServerOptions
unfolding with_address https_options rcode_of udp
server_options env kind dnsurl url remote =
    if same kind "local"
    then ok (local_server remote.dialer)
    else if same kind "udp"
    then udp env dnsurl url remote
    else if same kind "tcp"
    then or_no_address url (λ u. with_address env u.host 53 remote >>= λ r. ok (tcp_server r))
    else if same kind "tls" || same kind "quic"
    then or_no_address url (λ u. with_address env u.host 853 remote >>= λ r. ok (tls_server r))
    else if same kind "https" || same kind "h3"
    then or_no_address url (λ u.
      with_address env u.host 443 remote >>= λ r. ok (https_server (https_options env dnsurl u r)))
    else if same kind "rcode"
    then or_no_address url (λ u. rcode_of u.host >>= λ c. ok (rcode_server c))
    else if same kind "dhcp"
    then or_no_address url (λ u. ok (dhcp_server (if same u.host "auto" then "" else u.host)))
    else if same kind "fakeip"
    then ok (fake_ip_server none)
    else fail "unsupported DNS server scheme"

abbrev rcode_type : String → String
rcode_type kind = if same kind "rcode" then "legacy_rcode" else kind

-- `getDNSServerOptions`.
unfoldable pub get_dns_server_options : Env → String → String → String → String → Outcome DnsServer
unfolding server_type remote_options server_options
get_dns_server_options env tag dnsurl domain_resolver detour =
    let url = env.parse_url dnsurl in
    let kind = server_type url dnsurl in
    server_options env kind dnsurl url (remote_options env dnsurl domain_resolver detour) >>= λ o.
    ok (record { tag = tag; server_type = rcode_type kind; options = o })
