-- ===== src/Config/Dns/Server/Dialers.antt =====
-- A server that `getDNSServerOptions` builds dials the way it was asked to.
use inhive_core.Prelude.{
  ◌||◌, ℕ, String, Option, none, some, Outcome, ok, fail, ◌>>=◌, IfOk-use, ap, subst, IfOk,
  IfOk->>=, ◌≡◌, refl, ◌⊎◌, inl, inr, arith, same, if◌then◌else◌, if_both,
}
use inhive_core.Config.SingBox.{
  DnsServer, DnsServerOptions, local_server, udp_server, tcp_server, tls_server, https_server,
  rcode_server, dhcp_server, fake_ip_server, Dialer, RemoteServer,
}
use inhive_core.Config.Env.{Env, Url}
use inhive_core.Config.Dns.Server.{
  get_dns_server_options, server_options, server_type, remote_options, with_address, or_no_address,
  https_options, rcode_of, rcode_type, udp, host_of,
}

abbrev pub Dials : Dialer → DnsServerOptions → Type 0
Dials d (local_server e) = e ≡ d
Dials d (udp_server r) = r.dialer ≡ d
Dials d (tcp_server r) = r.dialer ≡ d
Dials d (tls_server r) = r.dialer ≡ d
Dials d (https_server h) = h.remote.dialer ≡ d
Dials d _ = Unit

module _ (env : Env) (remote : RemoteServer) where
  abbrev Kept : RemoteServer → Type 0
  Kept r = r.dialer ≡ remote.dialer

  with_address-Kept : (host : String) (usual : ℕ) → IfOk Kept (with_address env host usual remote)
  unfolding with_address
  with_address-Kept host usual = ground arith

  abbrev Good : Outcome DnsServerOptions → Type 0
  Good = IfOk (Dials remote.dialer)

  addressed :
      (url : Option Url) (usual : ℕ) (f : Url → RemoteServer → DnsServerOptions)
      → ((u : Url) (r : RemoteServer) → Kept r → Dials remote.dialer (f u r))
      → Good (or_no_address url (λ u. with_address env u.host usual remote >>= λ r. ok (f u r)))
  addressed none usual f h = tt
  addressed (some u) usual f h =
      IfOk->>= Kept (Dials remote.dialer) (with_address env u.host usual remote) (λ r. ok (f u r))
        (with_address-Kept u.host usual) (h u)

  udp-Good : (dnsurl : String) (url : Option Url) → Good (udp env dnsurl url remote)
  unfolding udp
  udp-Good dnsurl url =
      IfOk->>= Kept (Dials remote.dialer) (with_address env (host_of url dnsurl) 53 remote) _
        (with_address-Kept (host_of url dnsurl) 53) (λ r k. k)

  rcode-Good :
      (url : Option Url)
      → Good (or_no_address url (λ u. rcode_of u.host >>= λ c. ok (rcode_server c)))
  unfolding rcode_of
  rcode-Good none = tt
  rcode-Good (some u) = ground arith

  dhcp-Good :
      (url : Option Url)
      → Good (or_no_address url (λ u. ok (dhcp_server (if same u.host "auto" then "" else u.host))))
  dhcp-Good none = tt
  dhcp-Good (some u) = tt

  fake_ip-Good :
      (kind : String)
      → Good (
          if same kind "fakeip"
          then ok (fake_ip_server none)
          else fail "unsupported DNS server scheme")
  fake_ip-Good kind = ground arith

  pub server_options-Dials :
      (kind dnsurl : String) (url : Option Url) → Good (server_options env kind dnsurl url remote)
  unfolding server_options https_options
  server_options-Dials kind dnsurl url = if_both Good (same kind "local") refl (
      if_both Good (same kind "udp") (udp-Good dnsurl url) (
        if_both Good (same kind "tcp") (addressed url 53 (λ u r. tcp_server r) (λ u r k. k)) (
          if_both Good (same kind "tls" || same kind "quic")
            (addressed url 853 (λ u r. tls_server r) (λ u r k. k))
            (if_both Good (same kind "https" || same kind "h3")
              (addressed url 443 (λ u r. https_server (https_options env dnsurl u r)) (λ u r k. k))
              (if_both Good (same kind "rcode") (rcode-Good url)
                (if_both Good (same kind "dhcp") (dhcp-Good url) (fake_ip-Good kind)))))))

-- The outbound through which a server is reached and the server that resolves its name; empty for none.
abbrev pub dialer_of : DnsServerOptions → Dialer
dialer_of (local_server d) = d
dialer_of (udp_server r) = r.dialer
dialer_of (tcp_server r) = r.dialer
dialer_of (tls_server r) = r.dialer
dialer_of (https_server h) = h.remote.dialer
dialer_of _ = record { detour = ""; domain_resolver = "" }

-- The value asked for, or none.
abbrev pub IsOrEmpty : String → String → Type 0
IsOrEmpty value s = (s ≡ value) ⊎ (s ≡ "")

abbrev pub IsDialed : String → String → DnsServer → Type 0
IsDialed domain_resolver detour s =
    IsOrEmpty detour (dialer_of s.options).detour
    × IsOrEmpty domain_resolver (dialer_of s.options).domain_resolver

Dials-detour :
    (d : Dialer) (o : DnsServerOptions) → Dials d o → IsOrEmpty d.detour (dialer_of o).detour
Dials-detour d (local_server e) h = inl (ap (λ (x : Dialer). x.detour) h)
Dials-detour d (udp_server r) h = inl (ap (λ (x : Dialer). x.detour) h)
Dials-detour d (tcp_server r) h = inl (ap (λ (x : Dialer). x.detour) h)
Dials-detour d (tls_server r) h = inl (ap (λ (x : Dialer). x.detour) h)
Dials-detour d (https_server t) h = inl (ap (λ (x : Dialer). x.detour) h)
Dials-detour d _ h = inr refl

Dials-resolver :
    (d : Dialer) (o : DnsServerOptions)
    → Dials d o
    → IsOrEmpty d.domain_resolver (dialer_of o).domain_resolver
Dials-resolver d (local_server e) h = inl (ap (λ (x : Dialer). x.domain_resolver) h)
Dials-resolver d (udp_server r) h = inl (ap (λ (x : Dialer). x.domain_resolver) h)
Dials-resolver d (tcp_server r) h = inl (ap (λ (x : Dialer). x.domain_resolver) h)
Dials-resolver d (tls_server r) h = inl (ap (λ (x : Dialer). x.domain_resolver) h)
Dials-resolver d (https_server t) h = inl (ap (λ (x : Dialer). x.domain_resolver) h)
Dials-resolver d _ h = inr refl

remote_options-resolver :
    (env : Env) (dnsurl domain_resolver detour s : String)
    → IsOrEmpty (remote_options env dnsurl domain_resolver detour).dialer.domain_resolver s
    → IsOrEmpty domain_resolver s
unfolding remote_options
remote_options-resolver env dnsurl domain_resolver detour s h = ground arith

remote_options-detour :
    (env : Env) (dnsurl domain_resolver detour : String)
    → (remote_options env dnsurl domain_resolver detour).dialer.detour ≡ detour
unfolding remote_options
remote_options-detour env dnsurl domain_resolver detour = refl

abbrev IsAsked : String → String → String → DnsServer → Type 0
IsAsked tag domain_resolver detour s = (s.tag ≡ tag) × IsDialed domain_resolver detour s

-- A server that is made has the tag that was asked for; it dials through the detour that was asked for
-- or through none, and the same holds of its resolver.
pub get_dns_server_options-IsDialed :
    (env : Env) (tag dnsurl domain_resolver detour : String) {s : DnsServer}
    → get_dns_server_options env tag dnsurl domain_resolver detour ≡ ok s
    → (s.tag ≡ tag) × IsDialed domain_resolver detour s
unfolding get_dns_server_options
get_dns_server_options-IsDialed env tag dnsurl domain_resolver detour h =
    let url = env.parse_url dnsurl in
    let kind = server_type url dnsurl in
    let remote = remote_options env dnsurl domain_resolver detour in
    IfOk-use (IsAsked tag domain_resolver detour)
      (IfOk->>= (Dials remote.dialer) (IsAsked tag domain_resolver detour)
        (server_options env kind dnsurl url remote)
        (λ o. ok (record { tag = tag; server_type = rcode_type kind; options = o }))
        (server_options-Dials env remote kind dnsurl url)
        (λ o d. (
          refl,
          (
            subst (λ x. IsOrEmpty x (dialer_of o).detour)
                (remote_options-detour env dnsurl domain_resolver detour)
                (Dials-detour remote.dialer o d),
            remote_options-resolver env dnsurl domain_resolver detour (dialer_of o).domain_resolver
                (Dials-resolver remote.dialer o d),
          ),
        )))
      h
