-- ===== src/Config/Build.antt =====
-- `BuildConfig` of v2/config/builder.go. `input` is what `ReadSingOptions` returned.
pub mod Servers
pub mod Rules
pub mod Closed
pub mod Listeners
pub mod FullConfig
use inhive_core.Prelude.{
  String, Bool, true, false, List, [], Option, none, Outcome, ◌>>=◌, if◌then◌else◌,
}
use inhive_core.Config.SingBox.{Options}
use inhive_core.Config.Settings.{InhiveOptions}
use inhive_core.Config.Env.{Env}
use inhive_core.Config.Inbounds.{set_experimental, set_log, set_inbound}
use inhive_core.Config.Outbounds.Assemble.{set_outbounds, Assembled}
use inhive_core.Config.Dns.{set_dns}
use inhive_core.Config.Route.{set_routing_options}

abbrev pub no_options : Options
no_options = record {
  log = none;
  ntp = none;
  experimental = none;
  inbounds = [];
  outbounds = [];
  endpoints = [];
  dns = none;
  route = none;
}

unfoldable pub initial_options : Bool → Options → Options
initial_options full input =
    if full
    then record no_options { inbounds = input.inbounds; dns = input.dns; route = input.route }
    else no_options

unfoldable pub prepared : Env → InhiveOptions → Options → Options × InhiveOptions
unfolding initial_options
prepared env hopts input =
    let (options, hopts') =
      set_experimental env (initial_options hopts.enable_full_config input) hopts in
    (set_inbound env (set_log options hopts') hopts', hopts')

-- The build from the outbounds on.
unfoldable pub finish : Env → Assembled → Outcome (Options × String)
finish env a = do
  d ← set_dns env a.options a.settings a.main_detour []
  r ← set_routing_options env d a.settings a.main_detour
  Outcome.ok (r, a.main_detour)

-- The result, with the variable `OutboundMainDetour` as the build leaves it; nothing fills the map
-- of static addresses.
unfoldable pub build_config : Env → InhiveOptions → Outcome Options → Outcome (Options × String)
unfolding prepared finish
build_config env hopts read = do
  input ← read
  let p = prepared env hopts input
  a ← set_outbounds env p.0 input p.1
  finish env a
