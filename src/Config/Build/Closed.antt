-- ===== src/Config/Build/Closed.antt =====
-- A configuration that `BuildConfig` returns names nothing that is not in it.
use inhive_core.Prelude.{
  String, Bool, true, false, List, [], ◌∷◌, ◌++◌, some, Outcome, ok, >>=-eq-ok, IfOk, IfOk->>=,
  IfOk-use, IfOk-of, ap, ◌≡◌, refl, sym, ◌∙◌, subst, inl, inr, All, All-append, All-select, select,
  if_both,
}
use inhive_core.Config.Tags.{dns_static_tag, dns_multi_remote_tag, dns_multi_direct_tag}
use inhive_core.Config.SingBox.{Options, DnsOptions, DnsServer, RouteOptions, hosts_server}
use inhive_core.Config.Env.{Env}
use inhive_core.Config.Settings.{InhiveOptions}
use inhive_core.Config.Helpers.{contains}
use inhive_core.Config.Helpers.Members.{IsMember}
use inhive_core.Config.Dns.{
  dns_servers, dns_entries, fake_servers, set_dns, dns_options, direct_detour,
}
use inhive_core.Config.Route.{all_rules, set_routing_options, route_options, with_rules}
use inhive_core.Config.Outbounds.Assemble.{set_outbounds}
use inhive_core.Config.Outbounds.Tags.{target_tags}
use inhive_core.Config.Outbounds.Targets.{HasTargets, IsReady, set_outbounds-IsReady}
use inhive_core.Config.Build.{build_config, prepared}
use inhive_core.Config.Build.Servers.{
  tags_of, IsServed, server_tags, all-Served, IsLinked, IsLinkedEntry, entry_tags, IsOptional,
  dns_servers-FromEntries, FromEntries,
}
use inhive_core.Config.Build.Rules.{
  set_tags, DnsUses, RouteUses, IsRouted, all-IsDeclared, all-Routed,
}

-- What `setDns` leaves, with no rule yet.
record IsNamed (fake : Bool) (targets : List String) (d : DnsOptions) : Type 0 where
  tags : tags_of d.servers ≡ server_tags fake
  linked : All (IsLinked (server_tags fake) targets) d.servers
  final : d.final ≡ dns_multi_remote_tag
  rules : d.rules ≡ []

tags_of-append : (xs ys : List DnsServer) → tags_of (xs ++ ys) ≡ tags_of xs ++ tags_of ys
tags_of-append [] ys = refl
tags_of-append (x ∷ xs) ys = rw (tags_of-append xs ys)

fake-IsLinked :
    (fake : Bool) (tags targets : List String) → All (IsLinked tags targets) (fake_servers fake)
fake-IsLinked true tags targets = ((inl refl, inl refl), tt)
fake-IsLinked false tags targets = tt

entries-IsLinked :
    (opt : InhiveOptions) (main : String) (options : Options)
    → HasTargets main options
    → All
        (IsLinkedEntry (server_tags opt.enable_fake_dns) (target_tags options))
        (dns_entries opt main)
unfolding dns_entries direct_detour contains
entries-IsLinked opt main options h = (
  (inr refl, inr h.main),
  (
    (inr refl, inr h.main),
    (
      (inr refl, inr h.fragment),
      (
        (inr refl, if_both (IsOptional (target_tags options)) _ (inl refl) (inr h.fragment)),
        ((inr refl, inr h.fragment), ((inl refl, inl refl), tt)),
      ),
    ),
  ),
)

abbrev SetsDns : Bool → Options → Options → Type 0
SetsDns fake options out =
    (d : DnsOptions) × (out ≡ record options { dns = some d })
    × IsNamed fake (target_tags options) d

fakes-IsNamed :
    (fake : Bool) (targets : List String) (static_dns : DnsServer) (servers : List DnsServer)
    (d : DnsOptions)
    → static_dns.tag ≡ dns_static_tag
    → IsLinked (server_tags fake) targets static_dns
    → dns_static_tag ∷ (tags_of servers ++ tags_of (fake_servers fake)) ≡ server_tags fake
    → All (IsLinked (server_tags fake) targets) servers
    → d.servers ≡ (static_dns ∷ servers) ++ fake_servers fake
    → d.final ≡ dns_multi_remote_tag
    → d.rules ≡ []
    → IsNamed fake targets d
fakes-IsNamed fake targets static_dns servers d t l ts ls e f r = record {
  tags =
      ap tags_of e
      ∙ (ap (◌∷◌ static_dns.tag) (tags_of-append servers (fake_servers fake)) ∙ (rw t ts));
  linked =
      subst (All _) (sym e)
        (l, All-append _ servers (fake_servers fake) ls (fake-IsLinked fake _ _));
  final = f;
  rules = r;
}

fake_tags :
    (fake : Bool) (opt : InhiveOptions) (main : String)
    → dns_static_tag ∷ (entry_tags (dns_entries opt main) ++ tags_of (fake_servers fake))
      ≡ server_tags fake
unfolding dns_entries
fake_tags true opt main = refl
fake_tags false opt main = refl

set_dns-SetsDns :
    (env : Env) (options : Options) (opt : InhiveOptions) (main : String)
    → HasTargets main options
    → IfOk (SetsDns opt.enable_fake_dns options) (set_dns env options opt main [])
unfolding set_dns
set_dns-SetsDns env options opt main h =
    let fake = opt.enable_fake_dns in
    let targets = target_tags options in
    let es = dns_entries opt main in
    IfOk->>= (FromEntries env (server_tags fake) targets es) (SetsDns fake options)
      (dns_servers env es) _
      (IfOk-of _ (dns_servers env es) (λ ss made.
        dns_servers-FromEntries env (server_tags fake) targets es
          (entries-IsLinked opt main options h) made))
      (λ ss from.
        let static_dns : DnsServer = record {
          tag = dns_static_tag;
          server_type = "hosts";
          options = hosts_server [];
        } in
        let d = dns_options env opt static_dns ss in
        (
          d,
          refl,
          fakes-IsNamed fake targets static_dns ss d refl (inl refl, inl refl)
              (rw from.0 (fake_tags fake opt main)) from.1 refl refl refl,
        ))

-- Each name in the DNS part, the routes and the rule sets has what it names beside it.
pub record IsClosed (out : Options) (d : DnsOptions) (r : RouteOptions) : Type 0 where
  pub has_dns : out.dns ≡ some d
  pub has_route : out.route ≡ some r
  pub servers_linked : All (IsLinked (tags_of d.servers) (target_tags out)) d.servers
  pub dns_final : IsMember (tags_of d.servers) d.final
  pub dns_served : All (IsServed (tags_of d.servers)) d.rules
  pub dns_declared : All (DnsUses (set_tags r.rule_sets)) d.rules
  pub route_final : IsMember (target_tags out) r.final
  pub route_resolver : IsMember (tags_of d.servers) r.default_resolver
  pub routes_routed : All (IsRouted (target_tags out)) r.rules
  pub routes_declared : All (RouteUses (set_tags r.rule_sets)) r.rules

abbrev pub BuildsClosed : Options × String → Type 0
BuildsClosed res = (d : DnsOptions) × (r : RouteOptions) × IsClosed res.0 d r

member_of_tags :
    (d : DnsOptions) (fake : Bool)
    → tags_of d.servers ≡ server_tags fake
    → (t : String) → IsMember (server_tags fake) t
    → IsMember (tags_of d.servers) t
member_of_tags d fake e t h = subst (λ ts. IsMember ts t) (sym e) h

served_final : (fake : Bool) → IsMember (server_tags fake) dns_multi_remote_tag
unfolding contains
served_final fake = refl

served_direct : (fake : Bool) → IsMember (server_tags fake) dns_multi_direct_tag
unfolding contains
served_direct fake = refl

set_routing-IsClosed :
    (env : Env) (options : Options) (d : DnsOptions) (opt : InhiveOptions) (main : String)
    → HasTargets main options
    → IsNamed opt.enable_fake_dns (target_tags options) d
    → IfOk
        (λ out. BuildsClosed (out, main))
        (set_routing_options env (record options { dns = some d }) opt main)
unfolding set_routing_options
set_routing-IsClosed env options d opt main h n =
    let rules = all_rules env options.ntp opt main in
    let chosen = select env.dns_rule_is_valid rules.dns in
    let declared = all-IsDeclared env opt options.ntp main in
    (
      with_rules env d rules,
      route_options env opt main rules,
      record {
        has_dns = refl;
        has_route = refl;
        servers_linked =
            subst (λ ts. All (IsLinked ts (target_tags options)) d.servers) (sym n.tags) n.linked;
        dns_final =
            member_of_tags d opt.enable_fake_dns n.tags d.final
              (rw n.final (served_final opt.enable_fake_dns));
        dns_served =
            subst (λ ts. All (IsServed ts) (d.rules ++ chosen)) (sym n.tags)
              (subst (λ rs. All (IsServed (server_tags opt.enable_fake_dns)) (rs ++ chosen))
                (sym n.rules)
                (All-select _ env.dns_rule_is_valid rules.dns
                  (all-Served env opt options.ntp main)));
        dns_declared =
            subst (λ rs. All (DnsUses (set_tags rules.rule_sets)) (rs ++ chosen)) (sym n.rules)
              (All-select _ env.dns_rule_is_valid rules.dns declared.dns);
        route_final = h.main;
        route_resolver =
            member_of_tags d opt.enable_fake_dns n.tags dns_multi_direct_tag
              (served_direct opt.enable_fake_dns);
        routes_routed = all-Routed env opt (target_tags options) h.direct options.ntp main h.main;
        routes_declared = declared.routes;
      },
    )

-- After a successful build there are a DNS part and routes, and each name in them has what it names
-- beside it: the servers of the DNS rules and of the final answer, the resolvers and detours of the
-- servers, the outbounds of the routes and the final one, and the rule sets of both kinds of rules.
pub build_config-IsClosed :
    (env : Env) (hopts : InhiveOptions) (read : Outcome Options) {out : Options} {main : String}
    → build_config env hopts read ≡ ok (out, main)
    → (d : DnsOptions) × (r : RouteOptions) × IsClosed out d r
unfolding build_config
build_config-IsClosed env hopts read e =
    let (input, _, e1) = >>=-eq-ok read _ e in
    let p = prepared env hopts input in
    let (a, made, e2) = >>=-eq-ok (set_outbounds env p.0 input p.1) _ e1 in
    let ready = IfOk-use (IsReady p.0 p.1) (set_outbounds-IsReady env p.0 input p.1) made in
    let (options, made', e3) = >>=-eq-ok (set_dns env a.options a.settings a.main_detour []) _ e2 in
    let (d, shape, named) =
      IfOk-use _ (set_dns-SetsDns env a.options a.settings a.main_detour ready.has_targets) made' in
    let (res, made'', last) =
      >>=-eq-ok (set_routing_options env options a.settings a.main_detour) _ e3 in
    let closed =
      IfOk-use (λ o. BuildsClosed (o, a.main_detour))
        (subst
          (λ o.
            IfOk (λ x. BuildsClosed (x, a.main_detour))
              (set_routing_options env o a.settings a.main_detour))
          (sym shape)
          (set_routing-IsClosed env a.options d a.settings a.main_detour ready.has_targets named))
        made'' in
    subst (IfOk BuildsClosed) last closed
