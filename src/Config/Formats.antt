-- ===== src/Config/Formats.antt =====
-- v2/config/parser.go: the formats that a configuration may come in, tried one after another, and the
-- patch and the check of what one of them gave. The reading of the content stands in Config/Reading.
pub mod Library
pub mod Ready
pub mod Keyed
use inhive_core.Prelude.{
  ℕ, String, Bool, true, false, not, ◌&&◌, ◌||◌, List, [], ◌∷◌, Option, none, some, Outcome, panic,
  ok, fail, ◌>>=◌, same, join, if◌then◌else◌,
}
use inhive_core.Config.Tags.{outbound_direct_fragment_tag}
use inhive_core.Config.SingBox.{Endpoint, Options}
use inhive_core.Config.Settings.{InhiveOptions, default_inhive_options}
use inhive_core.Config.Env.{Env}
use inhive_core.Config.Warp.{patch_warp}
use inhive_core.Config.Reading.{Decoder, ReadOptions, read_content}
use inhive_core.Config.Formats.Library.{
  Json, null, text, array, object, Items, no_items, item, Fields, no_fields, field, Clash, Formats,
}

-- What follows an error of a call.
abbrev pub on_error {ℓ} : {V : Type ℓ} → Outcome V → (String → Outcome V) → Outcome V
on_error (ok v) next = ok v
on_error (fail e) next = next e
on_error panic next = panic

abbrev pub or_named {ℓ} : {V : Type ℓ} → String → Option V → Outcome V
or_named e none = fail e
or_named e (some v) = ok v

-- `v[k]`; a key that is missing gives nil, as JSON's null does.
unfoldable pub value_at : Fields → String → Json
value_at no_fields k = null
value_at (field k' v m) k = if same k' k then v else value_at m k

abbrev is_missing : Json → Bool
is_missing null = true
is_missing _ = false

abbrev type_of : Json → String
type_of (text s) = s
type_of _ = ""

-- The registered functions of a batch have the tag of their endpoint as key.
abbrev pub patch_tasks : Env → List Endpoint → List (String × Endpoint)
patch_tasks env [] = []
patch_tasks env (e ∷ es) =
    (e.tag, patch_warp env outbound_direct_fragment_tag false e) ∷ patch_tasks env es

-- One turn of the loop over the endpoints, `*res[base.Tag].Value`: no result is a nil pointer.
abbrev pub add_result : Option Endpoint → Outcome (List Endpoint) → Outcome (List Endpoint)
add_result none rest = panic
add_result (some patched) rest = do more ← rest; ok (patched ∷ more)

unfoldable pub batch_results : (String → Option Endpoint) → List Endpoint → Outcome (List Endpoint)
batch_results result [] = ok []
batch_results result (e ∷ es) = add_result (result e.tag) (batch_results result es)

abbrev pub no_format : Option String → Outcome Options
no_format (some json_error) = fail json_error
no_format none = fail "unable to determine config format"

abbrev pub or_default_options : Option InhiveOptions → InhiveOptions
or_default_options none = default_inhive_options
or_default_options (some opt) = opt

module _ (f : Formats) (env : Env) where
  abbrev pub validate_result : Options → String → Outcome Options
  validate_result o name =
      if f.check_config_options o
      then ok o
      else fail (join "[" (join name "] invalid sing-box config"))

  unfoldable pub patch_config_options : Options → String → Outcome Options
  patch_config_options o name = do
    ends ← batch_results (f.run_batch (patch_tasks env o.endpoints)) o.endpoints
    validate_result (record o { endpoints = ends }) name

  abbrev pub patch_config_str : String → String → Outcome Options
  patch_config_str content name = do
    o ← or_named "[SingboxParser] unmarshal error" (f.unmarshal content)
    patch_config_options o name

  abbrev pub marshalled : Fields → Outcome String
  marshalled m = or_named "[SingboxParser] marshal error" (f.marshal m)

  abbrev pub patched_object : Fields → Outcome Options
  patched_object m = do content ← marshalled m; patch_config_str content "SingboxParser"

  unfoldable pub is_endpoint_type : Fields → Bool
  is_endpoint_type m =
      let word = type_of (value_at m "type") in not (same word "") && f.creates_endpoint word

  abbrev pub is_endpoint_item : Json → Bool
  is_endpoint_item (object m) = is_endpoint_type m
  is_endpoint_item _ = false

  -- One turn of the loop over the containers: a text that cannot be written ends it at once.
  abbrev pub try_container : Fields → String → (String → Outcome Options) → Outcome Options
  try_container m container next = do
    content ← marshalled (field container (array (item (object m) no_items)) no_fields)
    on_error (patch_config_str content "SingboxParser") next

  -- A single object; the error is that of the first container.
  unfoldable pub single_object : Fields → Outcome Options
  single_object m =
      if is_endpoint_type m
      then try_container m "endpoints" (λ first. try_container m "outbounds" (λ second. fail first))
      else try_container m "outbounds" (λ first. fail first)

  -- The outbounds and the endpoints of an array.
  unfoldable pub sorted_items : Items → Items × Items
  sorted_items no_items = (no_items, no_items)
  sorted_items (item j js) =
      let rest = sorted_items js in
      if is_endpoint_item j then (rest.0, item j rest.1) else (item j rest.0, rest.1)

  abbrev pub with_items : String → Items → Fields → Fields
  with_items k no_items m = m
  with_items k (item j js) m = field k (array (item j js)) m

  abbrev pub with_value : String → Json → Fields → Fields
  with_value k v m = if is_missing v then m else field k v m

  abbrev pub object_of_items : Items × Items → Fields
  object_of_items (outs, ends) = with_items "outbounds" outs (with_items "endpoints" ends no_fields)

  -- What is left of an object that is no full configuration.
  abbrev pub connections_of : Fields → Fields
  connections_of m =
      with_value "outbounds" (value_at m "outbounds")
        (with_value "endpoints" (value_at m "endpoints") no_fields)

  unfoldable pub parse_singbox_json : Json → InhiveOptions → Bool → Outcome Options
  parse_singbox_json (object m) opt full =
      if is_missing (value_at m "outbounds") && is_missing (value_at m "endpoints")
      then single_object m
      else patched_object (if full || opt.enable_full_config then m else connections_of m)
  parse_singbox_json (array no_items) opt full = fail "[SingboxParser] Incorrect Json Format"
  parse_singbox_json (array (item j js)) opt full =
      patched_object (object_of_items (sorted_items (item j js)))
  parse_singbox_json _ opt full = fail "[SingboxParser] Incorrect Json Format"

  abbrev pub converted_clash : Clash → Outcome Options
  converted_clash c = do
    converted ← or_named "[ClashParser] converting clash to sing-box error" (f.clash_to_sing c)
    output ← or_named "[ClashParser] patching clash config error" (f.patch_clash converted)
    patch_config_str output "ClashParser"

  abbrev pub from_proxies : Clash → Option (List String) → Option String → Outcome Options
  from_proxies c none json_error = no_format json_error
  from_proxies c (some []) json_error = fail "[ClashParser] no outbounds found"
  from_proxies c (some (p ∷ ps)) json_error = converted_clash c

  abbrev pub from_clash : Option Clash → Option String → Outcome Options
  from_clash none json_error = no_format json_error
  from_clash (some c) json_error = from_proxies c c.proxies json_error

  -- The share links and then Clash; an error of what follows the conversion of links is final.
  abbrev pub from_links : Outcome Options → String → Option String → Outcome Options
  from_links (ok v2ray) content json_error = patch_config_options v2ray "V2rayParser"
  from_links (fail e) content json_error = from_clash (f.decode_clash content) json_error
  from_links panic content json_error = panic

  unfoldable pub other_formats : String → InhiveOptions → Option String → Outcome Options
  other_formats content opt json_error =
      from_links (f.ray2singbox_options content opt.use_xray_core_when_possible) content json_error

  abbrev pub first_format : Option Json → String → InhiveOptions → Bool → Outcome Options
  first_format none content opt full = other_formats content opt none
  first_format (some j) content opt full =
      on_error (parse_singbox_json j opt full) (λ e. other_formats content opt (some e))

  unfoldable pub parse_config_content : String → Option InhiveOptions → Bool → Outcome Options
  parse_config_content content config_opt full =
      first_format (f.decode_json content) content (or_default_options config_opt) full

  -- The options and `fullConfig` of the caller do not reach the parser.
  unfoldable pub parse_config :
      Decoder Options → ReadOptions Options → Option InhiveOptions → Bool → Outcome Options
  parse_config d opt config_opt full = do
    content ← read_content d opt
    parse_config_content content none false
