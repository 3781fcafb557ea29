-- ===== src/Share/Vmess.antt =====
-- xray2sing/ray2sing/vmess.go: the two forms of VMess links, JSON in base64 and a URL, and the
-- outbound of their parameters.
pub mod Normal
use inhive_core.Prelude.{
  ℕ, String, Bool, true, false, not, ◌&&◌, List, [], ◌∷◌, Option, none, some, Outcome, ok, fail,
  ◌>>=◌, same, join, has_prefix, has_part, if◌then◌else◌,
}
use inhive_core.Share.Library.{Library, ℤ}
use inhive_core.Share.Lines.{decode_base64_fault_tolerant, joined_by, trim_prefix}
use inhive_core.Share.Query.{
  Params, get?, get, set, is_one_of, to_int, to_uint16, normalize_packet_encoding,
}
use inhive_core.Share.Tls.{Tls, Multiplex, get_tls_options, get_mux_options}
use inhive_core.Share.Transport.{Transport, get_transport_options}
use inhive_core.Share.Url.{UrlSchema, parse_url, split_in_two}

-- A value of the JSON object. A number has the text of its integer part, the items of an array and any
-- other value have the text that `%v` prints.
pub data JsonValue : Type 0 where
  text : String → JsonValue
  number : String → JsonValue
  boolean : Bool → JsonValue
  array : List String → JsonValue
  other : String → JsonValue

-- `decode_object` is the decoder of a JSON object, `without_trailing_commas` the replacement of
-- `trailingCommaRe`.
pub record VmessLibrary : Type 0 where
  pub library : Library
  pub decode_object : String → Option (List (String × JsonValue))
  pub without_trailing_commas : String → String
  pub query_unescape : String → Option String

abbrev pub string_of : JsonValue → String
string_of (text s) = s
string_of (number s) = s
string_of (boolean b) = if b then "true" else "false"
string_of (array parts) = joined_by "," parts
string_of (other s) = s

unfoldable pub convert_to_strings : List (String × JsonValue) → Params
convert_to_strings [] = []
convert_to_strings ((k, v) ∷ entries) = (k, string_of v) ∷ convert_to_strings entries

abbrev pub is_there : Option String → Bool
is_there none = false
is_there (some s) = true

-- The loop of `normalizeVmessJSONFields`, in the order that the entries have here.
unfoldable pub with_lower_keys : Library → List (String × String) → Params → Params
with_lower_keys l [] d = d
with_lower_keys l ((k, v) ∷ m) d =
    let word = l.to_lower k in
    with_lower_keys l m
      (if not (same word k) && not (is_there (get? d word)) then set word v d else d)

abbrev pub with_tls : String → Params → Params
with_tls word d = if is_one_of word ("true" ∷ ("1" ∷ [])) then set "tls" "tls" d else d

unfoldable pub normalize_vmess_json_fields : Library → Params → Params
normalize_vmess_json_fields l m =
    let lowered = with_lower_keys l m m in
    let d = with_tls (l.to_lower (l.trim_space (get lowered "tls"))) lowered in
    set "id" (l.trim_space (get d "id")) d

-- What is before and after the first occurrence, as `strings.Cut` gives it.
abbrev pub before_cut : String → Option (String × String) → String
before_cut s none = s
before_cut s (some parts) = parts.0

abbrev pub after_cut : Option (String × String) → Option String
after_cut none = none
after_cut (some parts) = some parts.1

abbrev pub or_whole : String → Option String → String
or_whole s none = s
or_whole s (some rest) = rest

-- The first of the two decodings that succeeds; the error is that of the first.
abbrev pub decoded_twice :
    Option (List (String × JsonValue))
    → Option (List (String × JsonValue))
    → Outcome (List (String × JsonValue))
decoded_twice (some entries) retry = ok entries
decoded_twice none (some entries) = ok entries
decoded_twice none none = fail "json"

abbrev pub with_given_name : Option String → Params → Params
with_given_name none d = d
with_given_name (some name) d = if same name "" then d else set "ps" name d

abbrev pub with_fragment_name : VmessLibrary → Option String → Params → Params
with_fragment_name v none d = d
with_fragment_name v (some frag) d = with_given_name (v.query_unescape frag) d

unfoldable pub decode_vmess_json : VmessLibrary → String → Option String → Outcome Params
decode_vmess_json v decoded frag = do
  entries ←
      decoded_twice (v.decode_object decoded) (v.decode_object (v.without_trailing_commas decoded))
  ok (
      with_fragment_name v frag
        (normalize_vmess_json_fields v.library (convert_to_strings entries)))

abbrev pub with_fragment : Option String → String → String
with_fragment none s = s
with_fragment (some frag) s = join s (join "#" frag)

-- The URL of a link that is no JSON: the decoded body with the query of the link, or the body itself.
unfoldable pub rebuilt_url : String → String → String × Bool → Outcome String
rebuilt_url body b64_part decoded =
    if decoded.1 && has_part decoded.0 "@"
    then ok (join "vmess://" (join decoded.0 (trim_prefix body b64_part)))
    else if has_part body "@"
    then ok (join "vmess://" body)
    else if decoded.1
    then fail "vmess body is neither base64 JSON nor a URI form"
    else fail "base64"

-- `d[k] = d[k']`, where the one is empty and the other is not.
unfoldable pub filled : String → String → Params → Params
filled k k' d = if not (same (get d k') "") && same (get d k) "" then set k (get d k') d else d

unfoldable pub with_user : Library → UrlSchema → Params → Params
with_user l u d =
    if same u.password ""
    then set "id" (l.trim_space u.username) d
    else set "id" (l.trim_space u.password)
        (if same (get d "scy") "" then set "scy" u.username d else d)

unfoldable pub with_server : Library → UrlSchema → Params → Params
with_server l u d =
    let served = set "port" (l.itoa u.port) (set "add" u.hostname d) in
    if not (same u.name "")
    then set "ps" u.name served
    else if same (get served "remarks") ""
    then served
    else set "ps" (get served "remarks") served

unfoldable pub with_security : Params → Params
with_security d =
    let v = get d "security" in if is_one_of v ("tls" ∷ ("reality" ∷ [])) then set "tls" v d else d

unfoldable pub with_obfs : String → Params → Params
with_obfs word d =
    if is_one_of word ("websocket" ∷ ("ws" ∷ []))
    then set "net" "ws" d
    else if same word "http"
    then set "type" "http" (set "net" "tcp" d)
    else if same word "none" && same (get d "net") ""
    then set "net" "tcp" d
    else d

unfoldable pub vmess_uri_params : Library → UrlSchema → Params
vmess_uri_params l u =
    let named = with_server l u (with_user l u u.params) in
    let secured = with_security (filled "scy" "encryption" named) in
    let d = with_tls (l.to_lower (get secured "tls")) secured in
    filled "insecure" "allowinsecure"
      (filled "aid" "alterid" (filled "host" "obfsparam" (with_obfs (l.to_lower (get d "obfs")) d)))

unfoldable pub decode_vmess_uri_form : Library → String → Outcome Params
decode_vmess_uri_form l rebuilt = do u ← parse_url l rebuilt 443; ok (vmess_uri_params l u)

abbrev pub decoded_body : VmessLibrary → String → Option String → Outcome Params
decoded_body v body frag =
    let b64_part = before_cut body (split_in_two body "?") in
    let decoded = decode_base64_fault_tolerant v.library b64_part in
    if decoded.1 && has_prefix (v.library.trim_space decoded.0) "{"
    then decode_vmess_json v decoded.0 frag
    else (do
      rebuilt ← rebuilt_url body b64_part decoded
      decode_vmess_uri_form v.library (with_fragment frag rebuilt))

unfoldable pub decode_vmess : VmessLibrary → String → Outcome Params
decode_vmess v vmess_config =
    let entries = or_whole vmess_config (after_cut (split_in_two vmess_config "://")) in
    let cut = split_in_two entries "#" in decoded_body v (before_cut entries cut) (after_cut cut)

unfoldable pub normalize_vmess_security : Library → String → String
normalize_vmess_security l scy =
    let given = l.to_lower (l.trim_space scy) in
    let s = if same given "chacha20-ietf-poly1305" then "chacha20-poly1305" else given in
    if same s "auto"
    then "auto"
    else if same s "none"
    then "none"
    else if same s "zero"
    then "zero"
    else if same s "aes-128-cfb"
    then "aes-128-cfb"
    else if same s "aes-128-gcm"
    then "aes-128-gcm"
    else if same s "chacha20-poly1305"
    then "chacha20-poly1305"
    else "auto"

pub record VmessOutbound : Type 0 where
  pub tag : String
  pub server : String
  pub server_port : ℕ
  pub uuid : String
  pub security : String
  pub alter_id : ℤ
  pub authenticated_length : Bool
  pub packet_encoding : String
  pub tls : Option Tls
  pub transport : Option Transport
  pub multiplex : Option Multiplex

-- A link over TLS without a fingerprint looks like Chrome.
abbrev pub with_fingerprint : Params → Params
with_fingerprint d =
    if same (get d "tls") "tls" && same (get d "fp") "" then set "fp" "chrome" d else d

unfoldable pub vmess_outbound : Library → ℕ → Option Transport × Params → VmessOutbound
vmess_outbound l port t =
    let d = with_fingerprint t.1 in
    record {
      tag = get d "ps";
      server = get d "add";
      server_port = port;
      uuid = get d "id";
      security = normalize_vmess_security l (get t.1 "scy");
      alter_id = to_int l (get d "aid");
      authenticated_length = same (get d "authenticatedLength") "true";
      packet_encoding = normalize_packet_encoding l (get t.1 "packetEncoding");
      tls = get_tls_options l d;
      transport = t.0;
      multiplex = get_mux_options l d;
    }

unfoldable pub vmess_decoded : Library → Params → Outcome VmessOutbound
vmess_decoded l decoded = do
  transport ← get_transport_options l decoded
  ok (vmess_outbound l (to_uint16 l (get decoded "port") 443) transport)

unfoldable pub vmess_singbox : VmessLibrary → String → Outcome VmessOutbound
vmess_singbox v vmess_url = do decoded ← decode_vmess v vmess_url; vmess_decoded v.library decoded
