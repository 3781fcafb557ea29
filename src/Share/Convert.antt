-- ===== src/Share/Convert.antt =====
-- xray2sing/ray2sing/convert.go: from a subscription to outbounds and endpoints.
pub mod Chained
pub mod Words
pub mod Numbered
pub mod Failures
use Prim.Native.String.{len, slice}
use text.Mathlib.Text.{find?}
use inhive_core.Prelude.{
  ℕ, String, Bool, true, false, ◌&&◌, ◌||◌, List, [], ◌∷◌, ◌++◌, Option, none, some, Outcome, ok,
  fail, panic, ◌>>=◌, same, has_prefix, join, if◌then◌else◌, ltb, leb, ◌+◌,
}
use inhive_core.Share.Links.{
  Links, Entry, OutEnd, config_types, endpoint_parsers, pair_parsers, first_match,
}
use inhive_core.Share.Lines.{
  decode_base64_if_needed, expand_decoded_config, trim_prefix, is_comment,
}

-- The scheme in lower case.
unfoldable pub lower_scheme : Links → String → String
lower_scheme l config = elim (find? config "://") [
  | none ↦ config
  | some i ↦
      if ltb 0 i && leb i 16
      then join (l.library.to_lower (slice config 0 i)) (slice config i (len config))
      else config
]

unfoldable pub interface_head : Links → String → String
interface_head l config =
    if has_prefix config "[" && has_prefix (l.library.to_lower config) "[interface]"
    then join "[Interface]" (slice config 11 (len config))
    else config

-- The variables of `processSingleConfig`.
pub record Attempt : Type 0 where
  pub outend : OutEnd
  pub err : Option String

abbrev nothing_yet : Attempt
nothing_yet = record {
  outend = record { outbound = none; endpoint = none; helper = none };
  err = none;
}

-- `outend.outbound, err = v(config)` and its two siblings.
unfoldable pub with_outbound : Attempt → Outcome (Option Entry) → Outcome Attempt
with_outbound t panic = panic
with_outbound t (fail e) =
    ok (record { outend = record t.outend { outbound = none }; err = some e })
with_outbound t (ok o) = ok (record { outend = record t.outend { outbound = o }; err = none })

unfoldable pub with_endpoint : Attempt → Outcome (Option Entry) → Outcome Attempt
with_endpoint t panic = panic
with_endpoint t (fail e) =
    ok (record { outend = record t.outend { endpoint = none }; err = some e })
with_endpoint t (ok o) = ok (record { outend = record t.outend { endpoint = o }; err = none })

unfoldable pub with_pair : Attempt → Outcome (Option Entry × Option Entry) → Outcome Attempt
with_pair t panic = panic
with_pair t (fail e) =
    ok (record { outend = record t.outend { outbound = none; helper = none }; err = some e })
with_pair t (ok o) =
    ok (record { outend = record t.outend { outbound = o.0; helper = o.1 }; err = none })

abbrev is_nil : Option Entry → Bool
is_nil none = true
is_nil (some e) = false

unfoldable pub try_outbound : Links → String → Attempt → Outcome Attempt
try_outbound l config t = elim (first_match config_types config) [
  | none ↦ ok t
  | some v ↦ with_outbound t (l.parse v config)
]

unfoldable pub try_endpoint : Links → String → Attempt → Outcome Attempt
try_endpoint l config t = elim (first_match endpoint_parsers config) [
  | none ↦ ok t
  | some v ↦ with_endpoint t (l.parse_endpoint v config)
]

unfoldable pub try_pair : Links → String → Attempt → Outcome Attempt
try_pair l config t =
    if is_nil t.outend.outbound && is_nil t.outend.endpoint
    then elim (first_match pair_parsers config) [
      | none ↦ ok t
      | some v ↦ with_pair t (l.parse_pair v config)
    ]
    else ok t

-- A tag that is empty becomes the type.
abbrev named : Option Entry → Option Entry
named none = none
named (some e) = some (if same e.tag "" then record e { tag = e.entry_type } else e)

unfoldable pub finished : Attempt → Outcome OutEnd
finished t = elim t.err [
  | some e ↦ fail e
  | none ↦
      if is_nil t.outend.endpoint && is_nil t.outend.outbound
      then fail "Not supported config type"
      else ok (record t.outend {
        outbound = named t.outend.outbound;
        endpoint = named t.outend.endpoint;
      })
]

-- A deferred `recover` that makes an error of a panic.
abbrev pub recovered {ℓ} : {A : Type ℓ} → String → Outcome A → Outcome A
recovered message panic = fail message
recovered message (fail e) = fail e
recovered message (ok a) = ok a

unfoldable pub process_single_config : Links → String → Outcome OutEnd
process_single_config l c =
    let config = interface_head l (lower_scheme l c) in
    recovered "Error in Parsing" (do
      t ← try_outbound l config nothing_yet
      t' ← try_endpoint l config t
      t'' ← try_pair l config t'
      finished t'')

-- The variables of `GenerateConfigLite`: `detour_tag` belongs to the current line.
pub record Converted : Type 0 where
  pub outbounds : List Entry
  pub endpoints : List Entry
  pub counter : ℕ
  pub detour_tag : String

abbrev pub with_detour : String → Entry → Entry
with_detour d e = record e { detour = elim e.detour [ none ↦ none | some old ↦ some d ] }

abbrev pub with_counter : Links → ℕ → Entry → Entry
with_counter l k e = record e { tag = join e.tag (join " § " (l.library.itoa k)) }

unfoldable pub add_parts :
    Links → Converted → Option Entry → Option Entry → Option Entry → Converted
add_parts l s (some main) (some helper) endpoint =
    let helper' = with_detour s.detour_tag (with_counter l (s.counter + 1) helper) in
    let main' = with_detour helper'.tag (with_counter l s.counter main) in
    record s {
      outbounds = s.outbounds ++ (main' ∷ (helper' ∷ []));
      counter = s.counter + 1 + 1;
      detour_tag = main'.tag;
    }
add_parts l s (some outbound) none endpoint =
    let outbound' = with_detour s.detour_tag (with_counter l s.counter outbound) in
    record s {
      outbounds = s.outbounds ++ (outbound' ∷ []);
      counter = s.counter + 1;
      detour_tag = outbound'.tag;
    }
add_parts l s none helper (some endpoint) =
    let endpoint' = with_detour s.detour_tag (with_counter l s.counter endpoint) in
    record s {
      endpoints = s.endpoints ++ (endpoint' ∷ []);
      counter = s.counter + 1;
      detour_tag = endpoint'.tag;
    }
add_parts l s none helper none = record s { counter = s.counter + 1 }

unfoldable pub add_outend : Links → Converted → Outcome OutEnd → Converted
add_outend l s panic = s
add_outend l s (fail e) = s
add_outend l s (ok o) = add_parts l s o.outbound o.helper o.endpoint

-- The loop over the links of a chain, from the last.
unfoldable pub add_chain : Links → List String → Converted → Converted
add_chain l [] s = s
add_chain l (chain ∷ chains) s =
    add_outend l (add_chain l chains s)
      (process_single_config l (decode_base64_if_needed l.library chain))

abbrev pub is_ignored : String → Bool
is_ignored config = ltb (len config) 5 || is_comment config

unfoldable pub add_config : Links → String → Converted → Converted
add_config l config s =
    if is_ignored config
    then s
    else add_chain l (l.library.split config " -> ") (record s { detour_tag = "" })

unfoldable pub add_configs : Links → List String → Converted → Converted
add_configs l [] s = s
add_configs l (config ∷ configs) s = add_configs l configs (add_config l config s)

abbrev pub nothing_converted : Converted
nothing_converted = record { outbounds = []; endpoints = []; counter = 0; detour_tag = "" }

abbrev pub safe_ingest : String → Outcome (String × Bool) → String × Bool
safe_ingest input (ok answer) = answer
safe_ingest input (fail e) = (input, false)
safe_ingest input panic = (input, false)

unfoldable pub ingested : Links → String → Outcome String
ingested l input = do
  amnezia ← recovered "amnezia ingest panicked" (l.ingest_amnezia_vpn input)
  let json = safe_ingest input (l.ingest_json input)
  let clash = safe_ingest input (l.ingest_clash_yaml input)
  ok (
      if amnezia.1
      then amnezia.0
      else if json.1
      then json.0
      else if clash.1
      then clash.0
      else input)

abbrev pub is_none : List Entry → Bool
is_none [] = true
is_none (e ∷ es) = false

-- The converted configuration.
pub record Conversion : Type 0 where
  pub outbounds : List Entry
  pub endpoints : List Entry

unfoldable pub conversion : Converted → Outcome Conversion
conversion s =
    if is_none s.outbounds && is_none s.endpoints
    then fail "No outbounds found"
    else ok (record { outbounds = s.outbounds; endpoints = s.endpoints })

unfoldable pub generate_config_lite : Links → String → Outcome Conversion
generate_config_lite l input = do
  text ← ingested l input
  conversion (add_configs l (expand_decoded_config l.library text) nothing_converted)

unfoldable pub ray_2_singbox_options : Links → String → Outcome Conversion
ray_2_singbox_options l configs =
    recovered "Error in Parsing"
      (generate_config_lite l (decode_base64_if_needed l.library (trim_prefix configs "\u{feff}")))
