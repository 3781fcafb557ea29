-- ===== src/Config/Build/Rules.antt =====
-- The rule sets and outbounds that the rules of `setRoutingOptions` name.
use inhive_core.Prelude.{
  String, List, [], ◌∷◌, ◌++◌, Option, ◌≡◌, refl, arith, All, All-append, All-map, same, join,
  if_both,
}
use inhive_core.Config.Tags.{outbound_direct_tag}
use inhive_core.Config.SingBox.{DnsRule, RouteRule, RouteAction, route_to, RuleSet, NtpOptions}
use inhive_core.Config.Env.{Env}
use inhive_core.Config.Settings.{InhiveOptions}
use inhive_core.Config.Helpers.{contains}
use inhive_core.Config.Helpers.Members.{
  IsMember, Within, Within-left, Within-right, member_here, member_there,
}
use inhive_core.Config.Route.{
  RuleLists, ◌then_add◌, no_rules, all_rules, first_rules, lan_rules, ntp_rules, ads_rules,
  region_rules, quic_rules, last_rules, direct_domains, ntp_servers,
}

abbrev pub set_tags : List RuleSet → List String
set_tags [] = []
set_tags (s ∷ ss) = s.tag ∷ set_tags ss

abbrev pub DnsUses : List String → DnsRule → Type 0
DnsUses sets r = Within r.rule_set sets

abbrev pub RouteUses : List String → RouteRule → Type 0
RouteUses sets r = Within r.rule_set sets

-- The rules name only rule sets that are declared beside them.
pub record IsDeclared (l : RuleLists) : Type 0 where
  pub dns : All (DnsUses (set_tags l.rule_sets)) l.dns
  pub routes : All (RouteUses (set_tags l.rule_sets)) l.routes

set_tags-append : (xs ys : List RuleSet) → set_tags (xs ++ ys) ≡ set_tags xs ++ set_tags ys
set_tags-append [] ys = refl
set_tags-append (x ∷ xs) ys = rw (set_tags-append xs ys)

then_add-IsDeclared : (a b : RuleLists) → IsDeclared a → IsDeclared b → IsDeclared (a then_add b)
then_add-IsDeclared a b h k =
    let ta = set_tags a.rule_sets in
    let tb = set_tags b.rule_sets in
    record {
      dns = rw (set_tags-append a.rule_sets) (
          All-append _ a.dns b.dns
            (All-map (λ (r : DnsRule) u. Within-left r.rule_set ta tb u) a.dns h.dns)
            (All-map (λ (r : DnsRule) u. Within-right r.rule_set ta tb u) b.dns k.dns));
      routes = rw (set_tags-append a.rule_sets) (
          All-append _ a.routes b.routes
            (All-map (λ (r : RouteRule) u. Within-left r.rule_set ta tb u) a.routes h.routes)
            (All-map (λ (r : RouteRule) u. Within-right r.rule_set ta tb u) b.routes k.routes));
    }

no_rules-IsDeclared : IsDeclared no_rules
no_rules-IsDeclared = record { dns = tt; routes = tt }

module _ (env : Env) (hopt : InhiveOptions) where
  first-IsDeclared : (main : String) → IsDeclared (first_rules env hopt main)
  unfolding first_rules
  first-IsDeclared main = record { dns = (tt, (tt, tt)); routes = (tt, (tt, (tt, tt))) }

  lan-IsDeclared : IsDeclared (lan_rules hopt)
  unfolding lan_rules
  lan-IsDeclared =
      if_both IsDeclared hopt.bypass_lan (record { dns = tt; routes = (tt, tt) })
        no_rules-IsDeclared

  domains-IsDeclared : (ds : List String) → IsDeclared (direct_domains hopt ds)
  domains-IsDeclared [] = no_rules-IsDeclared
  domains-IsDeclared (d ∷ ds) = record { dns = (tt, tt); routes = (tt, tt) }

  ntp-IsDeclared : (ntp : Option NtpOptions) → IsDeclared (ntp_rules ntp hopt)
  unfolding ntp_rules
  ntp-IsDeclared ntp = domains-IsDeclared (ntp_servers ntp)

  ads-IsDeclared : IsDeclared (ads_rules hopt)
  unfolding ads_rules contains
  ads-IsDeclared =
      if_both IsDeclared hopt.block_ads
        (record { dns = ((refl, tt), tt); routes = ((refl, tt), tt) }) no_rules-IsDeclared

  region-IsDeclared : IsDeclared (region_rules hopt)
  unfolding region_rules
  region-IsDeclared =
      let geoip = join "geoip-" hopt.region in
      let geosite = join "geosite-" hopt.region in
      let sets = geoip ∷ geosite ∷ [] in
      let site : IsMember sets geosite =
        member_there geoip geosite (geosite ∷ []) (member_here geosite []) in
      if_both IsDeclared (same hopt.region "other") no_rules-IsDeclared (record {
        dns = (tt, ((site, tt), tt));
        routes = (tt, ((member_here geoip (geosite ∷ []), (site, tt)), tt));
      })

  quic-IsDeclared : IsDeclared (quic_rules hopt)
  unfolding quic_rules
  quic-IsDeclared =
      if_both IsDeclared hopt.block_quic (record { dns = tt; routes = (tt, tt) })
        no_rules-IsDeclared

  last-IsDeclared : IsDeclared (last_rules hopt)
  unfolding last_rules
  last-IsDeclared = ground arith

  pub all-IsDeclared :
      (ntp : Option NtpOptions) (main : String) → IsDeclared (all_rules env ntp hopt main)
  unfolding all_rules
  all-IsDeclared ntp main = then_add-IsDeclared _ _ (first-IsDeclared main) (
      then_add-IsDeclared _ _ lan-IsDeclared (
        then_add-IsDeclared _ _ (ntp-IsDeclared ntp) (
          then_add-IsDeclared _ _ ads-IsDeclared (
            then_add-IsDeclared _ _ region-IsDeclared
              (then_add-IsDeclared _ _ quic-IsDeclared last-IsDeclared)))))

abbrev pub Goes : List String → RouteAction → Type 0
Goes targets (route_to t) = IsMember targets t
Goes targets _ = Unit

abbrev pub IsRouted : List String → RouteRule → Type 0
IsRouted targets r = Goes targets r.action

module _ (env : Env) (hopt : InhiveOptions) (targets : List String)
    (direct : IsMember targets outbound_direct_tag) where
  abbrev Routed : RuleLists → Type 0
  Routed l = All (IsRouted targets) l.routes

  first-Routed : (main : String) → IsMember targets main → Routed (first_rules env hopt main)
  unfolding first_rules
  first-Routed main h = (tt, (tt, (h, tt)))

  lan-Routed : Routed (lan_rules hopt)
  unfolding lan_rules
  lan-Routed = if_both Routed hopt.bypass_lan (direct, tt) tt

  domains-Routed : (ds : List String) → Routed (direct_domains hopt ds)
  domains-Routed [] = tt
  domains-Routed (d ∷ ds) = (direct, tt)

  ads-Routed : Routed (ads_rules hopt)
  unfolding ads_rules
  ads-Routed = if_both Routed hopt.block_ads (tt, tt) tt

  region-Routed : Routed (region_rules hopt)
  unfolding region_rules
  region-Routed = if_both Routed (same hopt.region "other") tt (direct, (direct, tt))

  quic-Routed : Routed (quic_rules hopt)
  unfolding quic_rules
  quic-Routed = if_both Routed hopt.block_quic (tt, tt) tt

  pub all-Routed :
      (ntp : Option NtpOptions) (main : String)
      → IsMember targets main
      → Routed (all_rules env ntp hopt main)
  unfolding all_rules ntp_rules last_rules
  all-Routed ntp main h = All-append _ _ _ (first-Routed main h) (
      All-append _ _ _ lan-Routed (
        All-append _ _ _ (domains-Routed (ntp_servers ntp)) (
          All-append _ _ _ ads-Routed
            (All-append _ _ _ region-Routed (All-append _ _ _ quic-Routed tt)))))
