-- ===== src/Share/Tls.antt =====
-- xray2sing/ray2sing/common.go: `getTLSOptions`, `getTricksOptions`, `getMuxOptions` and
-- `getALPNversion`.
pub mod Normal
use Prim.Native.String.{len}
use inhive_core.Prelude.{
  ℕ, String, Bool, true, false, not, ◌&&◌, ◌||◌, List, [], ◌∷◌, Option, none, some, same, has_part,
  join, if◌then◌else◌, ltb, leb, ◌==◌,
}
use inhive_core.Share.Library.{Library, ℤ}
use inhive_core.Share.Query.{
  Params, get, get?, is_one_of, get_one_of, get_one_of_n, to_bool, to_int, is_positive,
  replace_char, normalize_tls_version, normalize_mux_protocol, normalize_reality_public_key,
  normalize_reality_short_id,
}

-- `OutboundECHOptions`; `config` has one text or none.
pub record Ech : Type 0 where
  pub config : List String
  pub query_server_name : String

pub record Reality : Type 0 where
  pub public_key : String
  pub short_id : String

-- `OutboundTLSOptions`; an `utls` that is set is enabled and has the fingerprint, and so is `reality`.
pub record Tls : Type 0 where
  pub enabled : Bool
  pub server_name : String
  pub insecure : Bool
  pub disable_sni : Bool
  pub ech : Option Ech
  pub mixed_case_sni : Option Bool
  pub utls : Option String
  pub min_version : String
  pub max_version : String
  pub alpn : List String
  pub reality : Option Reality

unfoldable pub is_reality : Params → Bool
is_reality d = same (get d "security") "reality" || same (get d "tls") "reality"

unfoldable pub asks_tls : Params → Bool
asks_tls d =
    same (get d "tls") "tls"
    || (same (get d "tls") "reality"
        || (same (get d "security") "tls" || same (get d "security") "reality"))

abbrev or_else : String → String → String
or_else s t = if same s "" then t else s

unfoldable pub server_name_of : Library → Params → String
server_name_of l d =
    or_else (get d "sni")
      (or_else (get d "peer") (or_else (get_one_of_n l d "" ("host" ∷ [])) (get d "add")))

abbrev ech_head : String
ech_head = "-----BEGIN ECH CONFIGS-----"

abbrev is_some {ℓ} : {A : Type ℓ} → Option A → Bool
is_some none = false
is_some (some a) = true

-- The value of `ech` if it stays set.
unfoldable pub ech_switched_on : Library → Params → Option String
ech_switched_on l d = elim (get? d "ech") [
  | none ↦ none
  | some v ↦
      if is_one_of (l.to_lower (l.trim_space v))
        ("0" ∷ ("false" ∷ ("no" ∷ ("off" ∷ ("none" ∷ [])))))
      then none
      else some v
]

unfoldable pub ech_repaired : Library → String → Option String
ech_repaired l v =
    if ltb 5 (len v) && not (has_part v ech_head)
    then (let blob = replace_char 32 "+" (l.trim_space v) in
        if leb 16 (len blob) && (is_some (l.std_decode blob) || is_some (l.raw_std_decode blob))
        then some blob
        else none)
    else some v

unfoldable pub ech_config : String → List String
ech_config v =
    if ltb 5 (len v)
    then (if has_part v ech_head
        then v
        else join ech_head (join "\n" (join v "\n-----END ECH CONFIGS-----")))
      ∷ []
    else []

unfoldable pub ech_query_name : Library → Params → String → List String → String
ech_query_name l d server_name (c ∷ config) = ""
ech_query_name l d server_name [] =
    let qsn = get_one_of_n l d "" ("query_server_name" ∷ ("echqueryservername" ∷ [])) in
    if not (same qsn "")
    then qsn
    else if to_bool l (get_one_of_n l d "" ("echforcequery" ∷ ("ech_force_query" ∷ []))) false
    then server_name
    else ""

unfoldable pub ech_options : Library → Params → String → Option Ech
ech_options l d server_name = elim (ech_switched_on l d) [
  | none ↦ none
  | some v ↦ elim (ech_repaired l v) [
    | none ↦ none
    | some v' ↦
        let config = ech_config v' in
        some (record { config = config; query_server_name = ech_query_name l d server_name config })
  ]
]

unfoldable pub fingerprint : Library → Params → String
fingerprint l d =
    let raw = l.to_lower (l.trim_space (get d "fp")) in
    let fp = if is_one_of raw ("none" ∷ ("unsafe" ∷ [])) then "" else raw in
    if same fp "" && is_reality d then "chrome" else fp

unfoldable pub get_tricks_options : Params → Option Bool
get_tricks_options d = if same (get d "mc") "1" then some true else none

abbrev is_insecure : Option String → Bool
is_insecure none = false
is_insecure (some v) = same v "true" || same v "1"

unfoldable pub base_tls : Library → Params → Tls
base_tls l d =
    let server_name = server_name_of l d in
    let fp = fingerprint l d in
    record {
      enabled = true;
      server_name = server_name;
      insecure = is_insecure (get_one_of d ("insecure" ∷ ("allowinsecure" ∷ [])));
      disable_sni = to_bool l (get_one_of_n l d "" ("nosni" ∷ [])) false;
      ech = ech_options l d server_name;
      mixed_case_sni = get_tricks_options d;
      utls = if same fp "" then none else some fp;
      min_version =
          normalize_tls_version l (get_one_of_n l d "" ("minversion" ∷ ("min_version" ∷ [])));
      max_version =
          normalize_tls_version l (get_one_of_n l d "" ("maxversion" ∷ ("max_version" ∷ [])));
      alpn = [];
      reality = none;
    }

unfoldable pub get_alpn_version : List String → ℕ
get_alpn_version [] = 1
get_alpn_version (s ∷ ss) = if same s "h3" then 3 else if same s "h2" then 2 else 1

-- The ALPN by the transport, and what becomes of uTLS with it.
unfoldable pub with_alpn : Library → Params → Tls → Tls
with_alpn l d t =
    let alpn = get d "alpn" in
    let net = get_one_of_n l d "" ("net" ∷ ("type" ∷ [])) in
    let offered = l.split alpn "," in
    if same alpn ""
    then t
    else if is_one_of net ("httpupgrade" ∷ ("ws" ∷ []))
    then record t { alpn = "http/1.1" ∷ [] }
    else if is_one_of net ("grpc" ∷ ("h2" ∷ []))
    then record t { alpn = "h2" ∷ [] }
    else if get_alpn_version offered == 3
    then (if is_reality d then record t { alpn = [] } else record t { alpn = offered; utls = none })
    else record t { alpn = offered }

unfoldable pub with_reality : Library → Params → Tls → Tls
with_reality l d t =
    if is_reality d
    then record t {
      reality = some (record {
        public_key = normalize_reality_public_key l (get d "pbk");
        short_id = normalize_reality_short_id l (get d "sid");
      });
    }
    else t

unfoldable pub get_tls_options : Library → Params → Option Tls
get_tls_options l d =
    if asks_tls d then some (with_reality l d (with_alpn l d (base_tls l d))) else none

-- `OutboundMultiplexOptions`; `brutal` has the speeds up and down.
pub record Multiplex : Type 0 where
  pub enabled : Bool
  pub protocol : String
  pub max_connections : ℤ
  pub min_streams : ℤ
  pub max_streams : ℤ
  pub padding : Bool
  pub brutal : Option (ℤ × ℤ)

unfoldable pub get_mux_options : Library → Params → Option Multiplex
get_mux_options l d =
    let protocol = normalize_mux_protocol l (get d "muxtype") in
    let up = to_int l (get d "muxup") in
    let down = to_int l (get d "muxdown") in
    if same protocol ""
    then none
    else some (record {
      enabled = true;
      protocol = protocol;
      max_connections = to_int l (get d "muxmaxc");
      min_streams = to_int l (get d "mux");
      max_streams = to_int l (get d "muxsmax");
      padding = same (get d "muxpad") "true";
      brutal = if is_positive up && is_positive down then some (up, down) else none;
    })
