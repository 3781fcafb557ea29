-- ===== src/Config/Build/Servers.antt =====
-- Every DNS server and every detour that the DNS part of a built configuration names is there.
use inhive_core.Prelude.{
  String, Bool, List, [], ◌∷◌, Option, ok, >>=-eq-ok, IfOk, ◌≡◌, refl, sym, subst, ◌⊎◌, inl, inr,
  arith, All, All-append, same, if◌then◌else◌, if_both,
}
use inhive_core.Config.Tags.{
  dns_remote_tag, dns_remote_tag_fallback, dns_local_tag, dns_static_tag, dns_direct_tag,
  dns_remote_no_warp_tag, dns_fake_tag, dns_tricks_direct_tag,
}
use inhive_core.Config.SingBox.{DnsServer, DnsRule, DnsAction, route, predefined, NtpOptions}
use inhive_core.Config.Env.{Env}
use inhive_core.Config.Settings.{InhiveOptions}
use inhive_core.Config.Helpers.{contains}
use inhive_core.Config.Helpers.Members.{IsMember}
use inhive_core.Config.Dns.{dns_servers, DnsEntry}
use inhive_core.Config.Dns.Server.Dialers.{IsOrEmpty, dialer_of, get_dns_server_options-IsDialed}
use inhive_core.Config.Route.{
  all_rules, first_rules, lan_rules, ntp_rules, ads_rules, region_rules, quic_rules, last_rules,
  RuleLists, direct_domains, ntp_servers,
}

abbrev pub tags_of : List DnsServer → List String
tags_of [] = []
tags_of (s ∷ ss) = s.tag ∷ tags_of ss

abbrev pub Names : List String → DnsAction → Type 0
Names tags (route r) = IsMember tags r.server
Names tags (predefined c) = Unit

abbrev pub IsServed : List String → DnsRule → Type 0
IsServed tags r = Names tags r.action

-- The tags that `setDns` gives its servers.
abbrev pub server_tags : Bool → List String
server_tags fake =
    dns_static_tag
    ∷ dns_remote_tag
    ∷ dns_remote_tag_fallback
    ∷ dns_remote_no_warp_tag
    ∷ dns_direct_tag
    ∷ dns_tricks_direct_tag
    ∷ dns_local_tag
    ∷ (if fake then dns_fake_tag ∷ [] else [])

module _ (env : Env) (hopt : InhiveOptions) where
  abbrev Served : List DnsRule → Type 0
  Served = All (IsServed (server_tags hopt.enable_fake_dns))

  first-Served : (main : String) → Served (first_rules env hopt main).dns
  unfolding first_rules contains
  first-Served main = (refl, (refl, tt))

  lan-Served : Served (lan_rules hopt).dns
  unfolding lan_rules
  lan-Served = if_both (λ (r : RuleLists). Served r.dns) hopt.bypass_lan tt tt

  ads-Served : Served (ads_rules hopt).dns
  unfolding ads_rules
  ads-Served = if_both (λ (r : RuleLists). Served r.dns) hopt.block_ads (tt, tt) tt

  region-Served : Served (region_rules hopt).dns
  unfolding region_rules contains
  region-Served =
      if_both (λ (r : RuleLists). Served r.dns) (same hopt.region "other") tt (refl, (refl, tt))

  quic-Served : Served (quic_rules hopt).dns
  unfolding quic_rules
  quic-Served = if_both (λ (r : RuleLists). Served r.dns) hopt.block_quic tt tt

  domains-Served : (ds : List String) → Served (direct_domains hopt ds).dns
  unfolding contains
  domains-Served [] = tt
  domains-Served (d ∷ ds) = (refl, tt)

  ntp-Served : (ntp : Option NtpOptions) → Served (ntp_rules ntp hopt).dns
  unfolding ntp_rules
  ntp-Served ntp = domains-Served (ntp_servers ntp)

  last-Served : Served (last_rules hopt).dns
  unfolding last_rules contains
  last-Served = ground arith

  pub all-Served :
      (ntp : Option NtpOptions) (main : String) → Served (all_rules env ntp hopt main).dns
  unfolding all_rules
  all-Served ntp main = All-append _ _ _ (first-Served main) (
      All-append _ _ _ lan-Served (
        All-append _ _ _ (ntp-Served ntp) (
          All-append _ _ _ ads-Served
            (All-append _ _ _ region-Served (All-append _ _ _ quic-Served last-Served)))))

-- A name that is left empty, or is one of a list.
abbrev pub IsOptional : List String → String → Type 0
IsOptional tags s = (s ≡ "") ⊎ IsMember tags s

-- A server resolves its own name by a server of `tags` and dials through an outbound of `targets`.
abbrev pub IsLinked : List String → List String → DnsServer → Type 0
IsLinked tags targets s =
    IsOptional tags (dialer_of s.options).domain_resolver
    × IsOptional targets (dialer_of s.options).detour

IsOptional-from :
    (tags : List String) (value s : String)
    → IsOptional tags value
    → IsOrEmpty value s
    → IsOptional tags s
IsOptional-from tags value s h (inl e) = subst (IsOptional tags) (sym e) h
IsOptional-from tags value s h (inr e) = inl e

abbrev pub entry_tags : List DnsEntry → List String
entry_tags [] = []
entry_tags (e ∷ es) = e.tag ∷ entry_tags es

abbrev pub IsLinkedEntry : List String → List String → DnsEntry → Type 0
IsLinkedEntry tags targets e = IsOptional tags e.fallback × IsOptional targets e.detour

module _ (env : Env) (tags targets : List String) where
  abbrev pub FromEntries : List DnsEntry → List DnsServer → Type 0
  FromEntries es ss = (tags_of ss ≡ entry_tags es) × All (IsLinked tags targets) ss

  pub dns_servers-FromEntries :
      (es : List DnsEntry) {ss : List DnsServer}
      → All (IsLinkedEntry tags targets) es
      → dns_servers env es ≡ ok ss
      → FromEntries es ss
  unfolding dns_servers
  dns_servers-FromEntries [] h e = subst (IfOk (FromEntries [])) e (refl, tt)
  dns_servers-FromEntries (x ∷ es) {ss} h e =
      let (s, made, later) = >>=-eq-ok _ _ e in
      let (rest, made', last) = >>=-eq-ok (dns_servers env es) (λ r. ok (s ∷ r)) later in
      let asked = get_dns_server_options-IsDialed env x.tag x.addr x.fallback x.detour made in
      let ih = dns_servers-FromEntries es h.1 made' in
      subst (IfOk (FromEntries (x ∷ es))) last (
        cc (asked.0, ih.0),
        (
          (
            IsOptional-from tags x.fallback _ h.0.0 asked.1.1,
            IsOptional-from targets x.detour _ h.0.1 asked.1.0,
          ),
          ih.1,
        ),
      )
