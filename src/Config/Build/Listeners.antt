-- ===== src/Config/Build/Listeners.antt =====
-- The inbounds of a built configuration: where they listen, and the size of the TUN packets.
use inhive_core.Prelude.{
  ℕ, String, Bool, true, false, List, [], ◌∷◌, ◌++◌, Outcome, ok, >>=-eq-ok, IfOk, IfOk->>=,
  IfOk-use, IfOk_true, ◌≡◌, refl, sym, subst, ◌∙◌, ◌⊎◌, inl, inr, arith, All, All-append,
  Option-cases,
}
use inhive_core.Config.SingBox.{
  Options, Inbound, InboundOptions, tun, mixed, tproxy, redirect, direct_in, other_inbound,
}
use inhive_core.Config.Env.{Env}
use inhive_core.Config.Settings.{InhiveOptions}
use inhive_core.Config.Inbounds.{
  set_experimental, set_log, set_inbound, all_binds, bind_inbounds, added, binds_of,
  is_ipv6_supported, tproxy_inbounds, redirect_inbounds, direct_inbounds, tun_inbound,
}
use inhive_core.Config.Outbounds.Assemble.{set_outbounds}
use inhive_core.Config.Outbounds.Targets.{IsReady, set_outbounds-IsReady}
use inhive_core.Config.Dns.{set_dns, dns_entries, dns_servers}
use inhive_core.Config.Route.{set_routing_options}
use inhive_core.Config.Build.{build_config, prepared, initial_options}

-- The address is the machine's own.
abbrev pub IsLoopback : String → Type 0
IsLoopback listen = (listen ≡ "127.0.0.1") ⊎ (listen ≡ "::1")

-- A listener is bound to `P`; a TUN inbound has packets of `mtu` bytes.
abbrev pub Binds : (String → Type 0) → ℕ → InboundOptions → Type 0
Binds P mtu (tun stack m strict address) = m ≡ mtu
Binds P mtu (mixed listen port proxy) = P listen
Binds P mtu (tproxy listen port) = P listen
Binds P mtu (redirect listen port) = P listen
Binds P mtu (direct_in listen port) = P listen
Binds P mtu (other_inbound details) = Unit

abbrev pub IsBound : (String → Type 0) → ℕ → Inbound → Type 0
IsBound P mtu i = Binds P mtu i.options

module _ (P : String → Type 0) (mtu : ℕ) where
  abbrev Bound : List Inbound → Type 0
  Bound = All (IsBound P mtu)

  added-Bound : (b : Bool) (i : Inbound) → IsBound P mtu i → Bound (added b i)
  added-Bound true i h = (h, tt)
  added-Bound false i h = tt

  bind_inbounds-Bound :
      (env : Env) (hopt : InhiveOptions) (bind : String)
      → P bind
      → Bound (bind_inbounds env hopt bind)
  unfolding bind_inbounds
  bind_inbounds-Bound env hopt bind h = (
    h,
    All-append (IsBound P mtu) (tproxy_inbounds env hopt bind)
        (redirect_inbounds env hopt bind ++ direct_inbounds hopt bind) (added-Bound _ _ h)
        (All-append (IsBound P mtu) (redirect_inbounds env hopt bind) (direct_inbounds hopt bind)
          (added-Bound _ _ h) (added-Bound _ _ h)),
  )

  all_binds-Bound :
      (env : Env) (hopt : InhiveOptions) (binds : List String)
      → All P binds
      → Bound (all_binds env hopt binds)
  unfolding all_binds
  all_binds-Bound env hopt [] h = tt
  all_binds-Bound env hopt (b ∷ bs) h =
      All-append (IsBound P mtu) (bind_inbounds env hopt b) (all_binds env hopt bs)
        (bind_inbounds-Bound env hopt b h.0) (all_binds-Bound env hopt bs h.1)

  pub set_inbound-Bound :
      (env : Env) (options : Options) (hopt : InhiveOptions)
      → hopt.mtu ≡ mtu
      → Bound options.inbounds
      → ((ipv6 : Bool) → All P (binds_of hopt.allow_connection_from_lan ipv6))
      → Bound (set_inbound env options hopt).inbounds
  unfolding set_inbound
  set_inbound-Bound env options hopt m before h =
      let ipv6 = is_ipv6_supported env in
      let tuns = added hopt.enable_tun (tun_inbound ipv6 hopt) in
      All-append (IsBound P mtu) (options.inbounds ++ tuns) _
        (All-append (IsBound P mtu) options.inbounds tuns before
          (added-Bound hopt.enable_tun (tun_inbound ipv6 hopt) m))
        (all_binds-Bound env hopt (binds_of hopt.allow_connection_from_lan ipv6) (h ipv6))

IsLoopback-binds : (ipv6 : Bool) → All IsLoopback (binds_of false ipv6)
unfolding binds_of
IsLoopback-binds true = (inr refl, (inl refl, tt))
IsLoopback-binds false = (inl refl, tt)

set_experimental-kept :
    (env : Env) (options : Options) (hopt : InhiveOptions)
    → let r = set_experimental env options hopt in
      (r.0.inbounds ≡ options.inbounds)
      × (r.1.mtu ≡ hopt.mtu)
      × (r.1.allow_connection_from_lan ≡ hopt.allow_connection_from_lan)
unfolding set_experimental
set_experimental-kept env options hopt = ground arith

abbrev Keeps : Options → Options → Type 0
Keeps o o' = o'.inbounds ≡ o.inbounds

set_dns-Keeps :
    (env : Env) (options : Options) (opt : InhiveOptions) (main : String)
    → IfOk (Keeps options) (set_dns env options opt main [])
unfolding set_dns
set_dns-Keeps env options opt main =
    IfOk->>= (λ ss. Unit {0}) (Keeps options) (dns_servers env (dns_entries opt main)) _
      (IfOk_true (dns_servers env (dns_entries opt main))) (λ ss h. refl)

set_routing-Keeps :
    (env : Env) (options : Options) (opt : InhiveOptions) (main : String)
    → IfOk (Keeps options) (set_routing_options env options opt main)
unfolding set_routing_options
set_routing-Keeps env options opt main = elim (Option-cases options.dns) [
  | inl missing ↦ rw (missing, set_routing_options) tt
  | inr (d, there) ↦ rw (there, set_routing_options) refl
]

-- The inbounds are those of the settings; what follows them in the build leaves them.
pub build_config-inbounds :
    (env : Env) (hopts : InhiveOptions) (read : Outcome Options) {out : Options} {main : String}
    → build_config env hopts read ≡ ok (out, main)
    → (input : Options) × (out.inbounds ≡ (prepared env hopts input).0.inbounds)
unfolding build_config
build_config-inbounds env hopts read e =
    let (input, _, e1) = >>=-eq-ok read _ e in
    let p = prepared env hopts input in
    let (a, made, e2) = >>=-eq-ok (set_outbounds env p.0 input p.1) _ e1 in
    let ready = IfOk-use (IsReady p.0 p.1) (set_outbounds-IsReady env p.0 input p.1) made in
    let (d, made', e3) = >>=-eq-ok (set_dns env a.options a.settings a.main_detour []) _ e2 in
    let (r, made'', last) = >>=-eq-ok (set_routing_options env d a.settings a.main_detour) _ e3 in
    let kept : r.inbounds ≡ p.0.inbounds =
      IfOk-use (Keeps d) (set_routing-Keeps env d a.settings a.main_detour) made''
      ∙ (IfOk-use (Keeps a.options) (set_dns-Keeps env a.options a.settings a.main_detour) made'
          ∙ ready.inbounds_kept) in
    (input, subst (IfOk (λ (res : Options × String). res.0.inbounds ≡ p.0.inbounds)) last kept)

module _ (P : String → Type 0) (env : Env) (hopts : InhiveOptions)
    (binds : (ipv6 : Bool) → All P (binds_of hopts.allow_connection_from_lan ipv6))
    (part : hopts.enable_full_config ≡ false) where
  abbrev Fits : Options → Type 0
  Fits o = All (IsBound P hopts.mtu) o.inbounds

  prepared-Fits : (input : Options) → Fits (prepared env hopts input).0
  unfolding prepared set_log initial_options
  prepared-Fits input =
      let start = initial_options hopts.enable_full_config input in
      let r = set_experimental env start hopts in
      let kept = set_experimental-kept env start hopts in
      set_inbound-Bound P hopts.mtu env (set_log r.0 r.1) r.1 kept.1
        (subst (All (IsBound P hopts.mtu)) (sym kept.0) (rw part tt))
        (λ ipv6. subst (λ lan. All P (binds_of lan ipv6)) (sym kept.2) (binds ipv6))

  build_config-Fits :
      (read : Outcome Options) {out : Options} {main : String}
      → build_config env hopts read ≡ ok (out, main)
      → Fits out
  build_config-Fits read e =
      let built = build_config-inbounds env hopts read e in
      subst (All (IsBound P hopts.mtu)) (sym built.1) (prepared-Fits built.0)

-- Unless connections from the LAN are allowed, or the inbounds come from a full configuration, each
-- proxy port of a built configuration is bound to a loopback address, and a TUN inbound has the
-- packet size of the settings.
pub build_config-IsLoopback :
    (env : Env) (hopts : InhiveOptions) (read : Outcome Options) {out : Options} {main : String}
    → hopts.allow_connection_from_lan ≡ false
    → hopts.enable_full_config ≡ false
    → build_config env hopts read ≡ ok (out, main)
    → All (IsBound IsLoopback hopts.mtu) out.inbounds
build_config-IsLoopback env hopts read lan part e =
    build_config-Fits IsLoopback env hopts (λ ipv6. rw lan (IsLoopback-binds ipv6)) part read e
