-- ===== src/Hcore/Side.antt =====
-- v2/hcore/independent_instance.go: the instances beside the tunnel. What the engine and the system
-- answer while one starts is in a `SideWorld`.
pub mod Race
pub mod Leaves
pub mod Inbounds
pub mod Listeners
use inhive_core.Prelude.{
  ℕ, String, Bool, true, false, not, ◌&&◌, List, [], ◌∷◌, Option, none, some, Outcome, panic, ok,
  fail, ◌>>=◌, same, if◌then◌else◌, suc, ◌-◌,
}
use inhive_core.Config.SingBox.{Options}
use inhive_core.Config.Env.{Env}
use inhive_core.Config.Settings.{InhiveOptions, default_inhive_options}
use inhive_core.Config.Build.{build_config}

-- `settles` tells whether the 250 milliseconds pass before the deadline.
pub record SideWorld : Type 0 where
  pub env : Env
  pub dev_null : String
  pub random_port : Outcome ℕ
  pub check : Outcome (Unit {0})
  pub starts : Outcome (Unit {0})
  pub settles : Bool

-- The options of a configuration of the app: `listen` is none where an inbound's options are no
-- `ListenOptionsWrapper`, and `details` stands for what is passed on unread.
pub record Listen : Type 0 where
  pub address : Option String
  pub port : ℕ

pub record RawInbound : Type 0 where
  pub inbound_type : String
  pub tag : String
  pub listen : Option Listen
  pub details : String

pub record RawExperimental : Type 0 where
  pub clash_api : Option String
  pub cache_file : Option String
  pub monitoring_disabled : Option Bool
  pub details : String

pub record RawOptions : Type 0 where
  pub experimental : Option RawExperimental
  pub inbounds : List RawInbound
  pub details : String

abbrev pub or_empty_experimental : Option RawExperimental → RawExperimental
or_empty_experimental none = record {
  clash_api = none;
  cache_file = none;
  monitoring_disabled = none;
  details = "";
}
or_empty_experimental (some e) = e

abbrev pub side_experimental : Option RawExperimental → RawExperimental
side_experimental e = record (or_empty_experimental e) {
  clash_api = none;
  cache_file = none;
  monitoring_disabled = some true;
}

abbrev pub is_tun : RawInbound → Bool
is_tun i = same i.inbound_type "tun"

abbrev pub repointed : ℕ → RawInbound → RawInbound
repointed port i = record i { listen = some (record { address = some "127.0.0.1"; port = port }) }

abbrev pub has_listen : Option Listen → Bool
has_listen none = false
has_listen (some l) = true

abbrev pub listens : RawInbound → Bool
listens i = has_listen i.listen

-- The loop after a port was assigned.
unfoldable pub without_tun : List RawInbound → List RawInbound
without_tun [] = []
without_tun (i ∷ is) = if is_tun i then without_tun is else i ∷ without_tun is

-- The loop until a port is assigned, and the port, 0 for none.
unfoldable pub sanitized : Outcome ℕ → List RawInbound → Outcome (List RawInbound × ℕ)
sanitized random [] = ok ([], 0)
sanitized random (i ∷ is) =
    let more = sanitized random is in
    if is_tun i
    then more
    else if listens i
    then (do port ← random; ok (repointed port i ∷ without_tun is, port))
    else (do rest ← more; ok (i ∷ rest.0, rest.1))

unfoldable pub sanitize_side_instance : Outcome ℕ → RawOptions → Outcome (RawOptions × ℕ)
sanitize_side_instance random opts = do
  r ← sanitized random opts.inbounds
  ok (
    record opts { experimental = some (side_experimental opts.experimental); inbounds = r.0 },
    r.1,
  )

-- The start of a checked configuration, with the number of services that are open: `NewStartedService`
-- makes one more, `Close` and `closeSideService` one fewer.
abbrev pub after_close_of : ℕ → ℕ
after_close_of n = n - 1

abbrev pub settled {ℓ} : {A : Type ℓ} → Bool → A → ℕ → Outcome A × ℕ
settled true instance' n = (ok instance', n)
settled false instance' n = (fail "deadline", after_close_of n)

abbrev pub started {ℓ} : {A : Type ℓ} → Bool → Outcome (Unit {0}) → A → ℕ → Outcome A × ℕ
started settles (ok u) a n = settled settles a n
started settles (fail e) a n = (fail e, after_close_of n)
started settles panic a n = (panic, n)

abbrev pub checked_start {ℓ} : {A : Type ℓ} → SideWorld → Outcome (Unit {0}) → A → ℕ → Outcome A × ℕ
checked_start w (ok u) a n = started w.settles w.starts a (suc n)
checked_start w (fail e) a n = (fail e, n)
checked_start w panic a n = (panic, n)

abbrev pub start_with {ℓ} : {A : Type ℓ} → SideWorld → Outcome A → ℕ → Outcome A × ℕ
start_with w (ok a) n = checked_start w w.check a n
start_with w (fail e) n = (fail e, n)
start_with w panic n = (panic, n)

abbrev pub sanitized_options : SideWorld → Option RawOptions → Outcome (RawOptions × ℕ)
sanitized_options w none = fail "nil options"
sanitized_options w (some opts) = sanitize_side_instance w.random_port opts

-- `startRawSideInstance`: the options that run, with the port.
unfoldable pub start_raw_side_instance :
    SideWorld → Option RawOptions → ℕ → Outcome (RawOptions × ℕ) × ℕ
start_raw_side_instance w opts open_before = start_with w (sanitized_options w opts) open_before

-- The settings of `runInstanceCoreBlocking`.
unfoldable pub side_settings : SideWorld → ℕ → InhiveOptions → InhiveOptions
side_settings w port settings = record settings {
  enable_clash_api = false;
  mixed_port = port;
  enable_tun = false;
  enable_tun_service = false;
  set_system_proxy = false;
  tproxy_port = 0;
  direct_port = 0;
  redirect_port = 0;
  region = "other";
  block_ads = false;
  log_file = w.dev_null;
  balancer_strategy =
      if same settings.balancer_strategy "" then "round-robin" else settings.balancer_strategy;
}

abbrev pub or_default_settings : Option InhiveOptions → InhiveOptions
or_default_settings none = default_inhive_options
or_default_settings (some s) = s

unfoldable pub built_beside :
    SideWorld → Option InhiveOptions → Outcome Options → Outcome (Options × ℕ)
built_beside w settings read = do
  port ← w.random_port
  final ← build_config w.env (side_settings w port (or_default_settings settings)) read
  ok (final.0, port)

-- `runInstanceCoreBlocking`: the options that run, with the port.
unfoldable pub run_instance_core_blocking :
    SideWorld → Option InhiveOptions → Outcome Options → ℕ → Outcome (Options × ℕ) × ℕ
run_instance_core_blocking w settings read open_before =
    start_with w (built_beside w settings read) open_before
