-- ===== src/Hcore/Side/Listeners.antt =====
-- The inbounds of a configuration that is built for an instance beside the tunnel.
use inhive_core.Prelude.{
  ℕ, String, Bool, true, false, List, [], ◌∷◌, ◌++◌, Option, Outcome, ok, join, ◌≡◌, refl, ◌∙◌,
  arith, map, IfOk, IfOk->>=, IfOk-of,
}
use inhive_core.Config.SingBox.{Options, Inbound, mixed}
use inhive_core.Config.Env.{Env}
use inhive_core.Config.Settings.{InhiveOptions}
use inhive_core.Config.Tags.{inbound_mixed_tag}
use inhive_core.Config.Inbounds.{
  set_experimental, set_log, set_inbound, mixed_inbound, all_binds, bind_inbounds, binds_of,
  tproxy_inbounds, redirect_inbounds, direct_inbounds, is_ipv6_supported,
}
use inhive_core.Config.Build.{build_config, prepared, initial_options}
use inhive_core.Config.Build.Listeners.{build_config-inbounds}
use inhive_core.Hcore.Side.{
  SideWorld, side_settings, or_default_settings, built_beside, run_instance_core_blocking,
}
use inhive_core.Hcore.Side.Leaves.{Leaves, start_with-Leaves}

abbrev pub side_mixed : ℕ → String → Inbound
side_mixed port bind = record { tag = join inbound_mixed_tag bind; options = mixed bind port false }

-- The options of a build beside the tunnel: a mixed port for each address, on the port that the system
-- gave, and nothing else.
abbrev pub IsMixed : SideWorld → Option InhiveOptions → Options × ℕ → Type 0
IsMixed w settings (o, port) =
    (w.random_port ≡ ok port)
    × (o.inbounds
        ≡ map (side_mixed port) (
            binds_of (or_default_settings settings).allow_connection_from_lan
              (is_ipv6_supported w.env)))

-- Ports that are 0 give no inbound.
tproxy_inbounds-none :
    (env : Env) (hopt : InhiveOptions) (bind : String)
    → hopt.tproxy_port ≡ 0
    → tproxy_inbounds env hopt bind ≡ []
tproxy_inbounds-none env hopt bind e = ground arith

redirect_inbounds-none :
    (env : Env) (hopt : InhiveOptions) (bind : String)
    → hopt.redirect_port ≡ 0
    → redirect_inbounds env hopt bind ≡ []
redirect_inbounds-none env hopt bind e = ground arith

direct_inbounds-none :
    (hopt : InhiveOptions) (bind : String) → hopt.direct_port ≡ 0 → direct_inbounds hopt bind ≡ []
direct_inbounds-none hopt bind e = ground arith

-- The ports of the settings beside the tunnel.
abbrev HasPort : ℕ → InhiveOptions → Type 0
HasPort port hopt =
    (hopt.mixed_port ≡ port)
    × (hopt.set_system_proxy ≡ false)
    × (hopt.tproxy_port ≡ 0)
    × (hopt.redirect_port ≡ 0)
    × (hopt.direct_port ≡ 0)

mixed_inbound-side :
    (port : ℕ) (hopt : InhiveOptions) (bind : String)
    → HasPort port hopt
    → mixed_inbound hopt bind ≡ side_mixed port bind
mixed_inbound-side port hopt bind h =
    λ i. record { tag = join inbound_mixed_tag bind; options = mixed bind (h.0 i) (h.1 i) }

bind_inbounds-side :
    (env : Env) (port : ℕ) (hopt : InhiveOptions) (bind : String)
    → HasPort port hopt
    → bind_inbounds env hopt bind ≡ side_mixed port bind ∷ []
unfolding bind_inbounds
bind_inbounds-side env port hopt bind h = λ i.
    mixed_inbound-side port hopt bind h i
    ∷ (tproxy_inbounds-none env hopt bind h.2 i
        ++ (redirect_inbounds-none env hopt bind h.3 i ++ direct_inbounds-none hopt bind h.4 i))

all_binds-side :
    (env : Env) (port : ℕ) (hopt : InhiveOptions) (binds : List String)
    → HasPort port hopt
    → all_binds env hopt binds ≡ map (side_mixed port) binds
unfolding all_binds
all_binds-side env port hopt [] h = refl
all_binds-side env port hopt (bind ∷ binds) h =
    λ i. bind_inbounds-side env port hopt bind h i ++ all_binds-side env port hopt binds h i

initial_options-inbounds :
    (full : Bool) (input : Options) → full ≡ false → (initial_options full input).inbounds ≡ []
unfolding initial_options
initial_options-inbounds true input e = cc (e)
initial_options-inbounds false input e = refl

prepared-side :
    (w : SideWorld) (port : ℕ) (settings : InhiveOptions) (input : Options)
    → settings.enable_full_config ≡ false
    → (prepared w.env (side_settings w port settings) input).0.inbounds
      ≡ map
          (side_mixed port)
          (binds_of settings.allow_connection_from_lan (is_ipv6_supported w.env))
unfolding prepared initial_options set_experimental set_log set_inbound side_settings
prepared-side w port settings input e =
    let start = initial_options settings.enable_full_config input in
    let hopt = (set_experimental w.env start (side_settings w port settings)).1 in
    let binds = binds_of settings.allow_connection_from_lan (is_ipv6_supported w.env) in
    let none_before = initial_options-inbounds settings.enable_full_config input e in
    let listeners : all_binds w.env hopt binds ≡ map (side_mixed port) binds =
      all_binds-side w.env port hopt binds (refl, refl, refl, refl, refl) in
    λ i. (none_before i ++ []) ++ listeners i

built_beside-IsMixed :
    (w : SideWorld) (settings : Option InhiveOptions) (read : Outcome Options)
    → (or_default_settings settings).enable_full_config ≡ false
    → IfOk (IsMixed w settings) (built_beside w settings read)
unfolding built_beside
built_beside-IsMixed w settings read e =
    let own = or_default_settings settings in
    IfOk->>= (λ (p : ℕ). w.random_port ≡ ok p) (IsMixed w settings) w.random_port _
      (IfOk-of (λ (p : ℕ). w.random_port ≡ ok p) w.random_port (λ p found. found))
      (λ port found.
        let call = build_config w.env (side_settings w port own) read in
        IfOk->>= (λ (r : Options × String). IsMixed w settings (r.0, port)) (IsMixed w settings)
          call (λ (r : Options × String). ok (r.0, port))
          (IfOk-of (λ (r : Options × String). IsMixed w settings (r.0, port)) call
            (λ r made.
              let kept = build_config-inbounds w.env (side_settings w port own) read made in
              (found, kept.1 ∙ prepared-side w port own kept.0 e)))
          (λ r h. h))

-- A configuration that is built for an instance beside the tunnel, from settings that do not ask for a
-- full one, runs with a mixed port for each address of the settings, on the port that the system gave as
-- free, and with no other inbound. A start that succeeds leaves one service more open than before, and
-- one that fails leaves as many as before.
pub run_instance_core_blocking-Leaves :
    (w : SideWorld) (settings : Option InhiveOptions) (read : Outcome Options) (open_before : ℕ)
    → (or_default_settings settings).enable_full_config ≡ false
    → Leaves
        (IsMixed w settings)
        open_before
        (run_instance_core_blocking w settings read open_before)
unfolding run_instance_core_blocking
run_instance_core_blocking-Leaves w settings read open_before e =
    start_with-Leaves (IsMixed w settings) w (built_beside w settings read) open_before
      (built_beside-IsMixed w settings read e)
