-- ===== src/Config/Formats/Library.antt =====
-- What v2/config/parser.go works on beside sing-box's options: JSON as Go decodes it into `any`, Clash
-- configurations, and the libraries that it calls.
use inhive_core.Prelude.{String, Bool, List, Option, Outcome}
use inhive_core.Config.SingBox.{Endpoint, Options}

mutual
  -- A number or a Boolean is a scalar, with its text.
  pub data Json : Type 0 where
    null : Json
    scalar : String → Json
    text : String → Json
    array : Items → Json
    object : Fields → Json

  pub data Items : Type 0 where
    no_items : Items
    item : Json → Items → Items

  -- A key of a Go map stands in it once.
  pub data Fields : Type 0 where
    no_fields : Fields
    field : String → Json → Fields → Fields

-- `proxies` is none where the slice is nil.
pub record Clash : Type 0 where
  pub proxies : Option (List String)
  pub details : String

-- `decode_json` reads one value through the comment filter, `creates_endpoint` asks the registry of
-- endpoints (no registry knows no type), `run_batch` answers for a key after all functions of a batch
-- have returned, `patch_clash` writes a converted Clash configuration into the template.
pub record Formats : Type 0 where
  pub decode_json : String → Option Json
  pub creates_endpoint : String → Bool
  pub marshal : Fields → Option String
  pub unmarshal : String → Option Options
  pub run_batch : List (String × Endpoint) → String → Option Endpoint
  pub check_config_options : Options → Bool
  pub ray2singbox_options : String → Bool → Outcome Options
  pub decode_clash : String → Option Clash
  pub clash_to_sing : Clash → Option String
  pub patch_clash : String → Option String
