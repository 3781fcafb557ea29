-- ===== src/Config/Build/FullConfig.antt =====
-- The DNS part and the routes of the input do not reach the result.
use inhive_core.Prelude.{
  Bool, Option, none, Outcome, ok, fail, panic, ◌>>=◌, ◌≡◌, refl, ap, ◌∙◌, arith, if◌then◌else◌,
}
use inhive_core.Config.SingBox.{Options, DnsOptions, RouteOptions}
use inhive_core.Config.Env.{Env}
use inhive_core.Config.Settings.{InhiveOptions}
use inhive_core.Config.Inbounds.{set_experimental, set_log, set_inbound}
use inhive_core.Config.Outbounds.Assemble.{
  Assembled, set_outbounds, make_groups, ends_of, assembled, collected, Groups,
}
use inhive_core.Config.Dns.{set_dns}
use inhive_core.Config.Route.{set_routing_options}
use inhive_core.Config.Build.{build_config, prepared, finish}

abbrev pub with_parts : Options → Option DnsOptions → Option RouteOptions → Options
with_parts o d r = record o { dns = d; route = r }

module _ (env : Env) (d : Option DnsOptions) (r : Option RouteOptions) where
  finish-with_parts :
      (a : Assembled) → finish env (record a { options = with_parts a.options d r }) ≡ finish env a
  unfolding finish set_dns set_routing_options
  finish-with_parts a = ground arith

  set_outbounds-with_parts :
      (o input : Options) (opt : InhiveOptions)
      → (set_outbounds env (with_parts o d r) input opt >>= finish env)
        ≡ (set_outbounds env o input opt >>= finish env)
  unfolding set_outbounds
  set_outbounds-with_parts o input opt =
      go (make_groups opt.warp.enable_warp opt.balancer_strategy (ends_of env opt input).tags)
    where
      go :
          (m : Outcome Groups)
          → ((m >>= λ g. ok (assembled env (with_parts o d r) input opt g)) >>= finish env)
            ≡ ((m >>= λ g. ok (assembled env o input opt g)) >>= finish env)
      go (ok g) = unfold assembled in finish-with_parts (assembled env o input opt g)
      go (fail e) = refl
      go panic = refl

abbrev kept_if {ℓ} : {A : Type ℓ} → Bool → Option A → Option A
kept_if full x = if full then x else none

prepared-with_parts :
    (env : Env) (hopts : InhiveOptions) (input : Options) (d : Option DnsOptions)
    (r : Option RouteOptions)
    → prepared env hopts (with_parts input d r) ≡ (
      with_parts
          (prepared env hopts input).0
          (kept_if hopts.enable_full_config d)
          (kept_if hopts.enable_full_config r),
      (prepared env hopts input).1,
    )
unfolding prepared set_experimental set_log set_inbound
prepared-with_parts env hopts input d r = ground arith

collected_same :
    (env : Env) (o input : Options) (opt : InhiveOptions) (d : Option DnsOptions)
    (r : Option RouteOptions)
    → set_outbounds env o (with_parts input d r) opt ≡ set_outbounds env o input opt
unfolding set_outbounds assembled ends_of collected
collected_same env o input opt d r = refl

-- The DNS part and the routes of the input have no effect on the build, with a full configuration
-- too.
pub build_config-full_ignored :
    (env : Env) (hopts : InhiveOptions) (input : Options) (d : Option DnsOptions)
    (r : Option RouteOptions)
    → build_config env hopts (ok (with_parts input d r)) ≡ build_config env hopts (ok input)
unfolding build_config
build_config-full_ignored env hopts input d r =
    let p = prepared env hopts input in
    let full = hopts.enable_full_config in
    ap
      (λ (q : Options × InhiveOptions).
        set_outbounds env q.0 (with_parts input d r) q.1 >>= finish env)
      (prepared-with_parts env hopts input d r)
    ∙ (ap (λ m. m >>= finish env)
          (collected_same env (with_parts p.0 (kept_if full d) (kept_if full r)) input p.1 d r)
        ∙ set_outbounds-with_parts env (kept_if full d) (kept_if full r) p.0 input p.1)
