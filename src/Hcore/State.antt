-- ===== src/Hcore/State.antt =====
-- v2/hcore/static_data.go, coreinfo.go and custom.go: the state of the instance, and how it reports errors.
-- The locks are not part of the state: each call is one step.
use inhive_core.Prelude.{
  ℕ, String, Bool, true, false, List, ◌∷◌, Option, none, some, if◌then◌else◌, ◌-◌,
}
use inhive_core.Config.Settings.{InhiveOptions}

pub data CoreStates : Type 0 where
  stopped starting started stopping : CoreStates

-- The message types that the modelled code sends.
pub data MessageType : Type 0 where
  empty start_service_failed unexpected_error already_started already_stopped
        error_building_config :
      MessageType

pub record CoreInfoResponse : Type 0 where
  pub core_state : CoreStates
  pub message_type : MessageType
  pub message : String

pub record StartRequest : Type 0 where
  pub config_path : String
  pub config_content : String
  pub disable_memory_limit : Bool
  pub delay_start : Bool
  pub enable_raw_config : Bool
  pub config_name : String
  pub ping_only : Bool

-- A point in time as Go keeps it, with both of its readings, in nanoseconds.
pub record Moment : Type 0 where
  pub wall : ℕ
  pub monotonic : ℕ

-- `InhiveInstance`. `service` tells whether `StartedService` is set; `engines` counts the engines whose
-- goroutines run; `box` numbers the running engine's pause manager. A timer is the manager it wakes.
-- `infos` are the published reports, the newest first.
pub record InhiveInstance : Type 0 where
  pub core_state : CoreStates
  pub service : Bool
  pub engines : ℕ
  pub box : ℕ
  pub inhive_options : Option InhiveOptions
  pub previous_start_request : Option StartRequest
  pub last_start_name : Option String
  pub debug : Bool
  pub listen_port : ℕ
  pub memory_limit : Bool
  pub end_pause_timer : Option ℕ
  pub paused_at : Option Moment
  pub mode_watcher : Bool
  pub mem_sampler : Bool
  pub start_cancel : Bool
  pub infos : List CoreInfoResponse

abbrev pub Reply : Type 0
Reply = CoreInfoResponse × Option String

unfoldable pub set_start_cancel : InhiveInstance → InhiveInstance
set_start_cancel s = record s { start_cancel = true }

unfoldable pub clear_start_cancel : InhiveInstance → InhiveInstance
clear_start_cancel s = record s { start_cancel = false }

abbrev pub info : CoreStates → MessageType → String → CoreInfoResponse
info state kind message = record { core_state = state; message_type = kind; message = message }

unfoldable pub set_core_status : CoreStates → MessageType → String → InhiveInstance → InhiveInstance
set_core_status state kind message s = record s {
  core_state = state;
  infos = info state kind message ∷ s.infos;
}

unfoldable pub reset_pause_state : InhiveInstance → InhiveInstance
reset_pause_state s = record s { paused_at = none; end_pause_timer = none }

-- `CloseService` and `Close` on the service, if it is set, and the reset of the field.
unfoldable pub drop_service : InhiveInstance → InhiveInstance
drop_service s = if s.service then record s { service = false; engines = s.engines - 1 } else s

unfoldable pub stop_and_alert : MessageType → String → InhiveInstance → InhiveInstance
unfolding set_core_status reset_pause_state drop_service
stop_and_alert kind message s =
    drop_service (reset_pause_state (set_core_status stopped kind message s))

unfoldable pub error_wrapper : MessageType → String → InhiveInstance → InhiveInstance × Reply
unfolding set_core_status stop_and_alert
error_wrapper kind message s = (
  set_core_status stopped kind message (stop_and_alert unexpected_error message s),
  (info stopped kind message, some message),
)
