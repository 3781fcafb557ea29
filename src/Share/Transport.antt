-- ===== src/Share/Transport.antt =====
-- xray2sing/ray2sing/common.go, `getTransportOptions`. The map of the parameters is passed on, since the
-- function writes the default ALPN into it.
pub mod Xhttp
use Prim.Native.String
use Prim.Native.String.{slice, len}
use inhive_core.Prelude.{
  ℕ, String, Bool, true, false, not, ◌&&◌, ◌||◌, List, [], ◌∷◌, Option, none, some, Outcome, ok,
  fail, ◌>>=◌, same, has_prefix, join, if◌then◌else◌, ltb, ◌==◌, ◌*◌,
}
use inhive_core.Share.Library.{Library, ℤ, pos, negsuc, Url, Values}
use inhive_core.Share.Query.{
  Params, get, get?, set, is_one_of, get_one_of_n, to_bool, to_int, wrapped_64,
}
use inhive_core.Share.Transport.Xhttp.{XhttpOptions, xhttp_options}

pub record HttpOptions : Type 0 where
  pub method : String
  pub host : List String
  pub path : String
  pub headers : List (String × String)

-- The options of a WebSocket and of an HTTP upgrade; times are in nanoseconds.
pub record UpgradeOptions : Type 0 where
  pub host_header : Option String
  pub path : String
  pub max_early_data : ℕ
  pub early_data_header_name : String
  pub heartbeat_period : ℤ

pub record GrpcOptions : Type 0 where
  pub service_name : String
  pub idle_timeout : ℤ
  pub ping_timeout : ℤ
  pub permit_without_stream : Bool
  pub authority : String
  pub user_agent : String

-- `V2RayTransportOptions` by its type.
pub data Transport : Type 0 where
  http : HttpOptions → Transport
  http_upgrade : UpgradeOptions → Transport
  ws : UpgradeOptions → Transport
  grpc : GrpcOptions → Transport
  quic : Transport
  xhttp : XhttpOptions → Transport

-- The transport of the link: the header types that `type` may have instead mean TCP.
unfoldable pub net_of : Params → String
net_of d =
    let kind = get d "type" in
    if not (same (get d "net") "")
    then get d "net"
    else if is_one_of kind
        ("none" ∷ ("srtp" ∷ ("utp" ∷ ("wechat-video" ∷ ("dtls" ∷ ("wireguard" ∷ ("dns" ∷ [])))))))
    then "tcp"
    else kind

unfoldable pub path_of : Library → Params → String
path_of l d =
    if same (get d "path") ""
    then get_one_of_n l d "" ("servicename" ∷ ("service-name" ∷ ("grpc-service-name" ∷ [])))
    else get d "path"

-- The aliases, one after another as in the source.
abbrev alias : String → String → String → String
alias old new net = if same net old then new else net

unfoldable pub plain_net : Params → String
plain_net d =
    let net = net_of d in
    let tcp = if is_one_of net ("raw" ∷ ("" ∷ [])) then "tcp" else net in
    let obfuscated =
      if (same (get d "type") "http" || same (get d "headertype") "http") && same tcp "tcp"
      then "http"
      else tcp in
    alias "websocket" "ws" (alias "splithttp" "xhttp" (alias "h2" "http" obfuscated))

-- The texts that are not empty after trimming.
unfoldable pub trimmed_texts : Library → List String → List String
trimmed_texts l [] = []
trimmed_texts l (h ∷ hs) =
    let rest = trimmed_texts l hs in
    if same (l.trim_space h) "" then rest else l.trim_space h ∷ rest

abbrev or_nothing : Option (List (String × String)) → List (String × String)
or_nothing none = []
or_nothing (some m) = m

unfoldable pub http_options : Library → Params → String → HttpOptions
http_options l d path =
    let custom = get_one_of_n l d "" ("method" ∷ ("http_method" ∷ [])) in
    let host = get d "host" in
    let headers = get_one_of_n l d "" ("headers" ∷ []) in
    record {
      method =
          if not (same custom "")
          then custom
          else if same (get d "security") "tls"
          then ""
          else "GET";
      host = if same host "" then [] else trimmed_texts l (l.split host ",");
      path = if same path "" then "/" else path;
      headers = if same headers "" then [] else or_nothing (l.unmarshal_headers headers);
    }

-- `Values.Get` and `Values.Del`.
unfoldable pub first_value : Values → String → String
first_value [] k = ""
first_value ((k', []) ∷ m) k = if same k' k then "" else first_value m k
first_value ((k', v ∷ vs) ∷ m) k = if same k' k then v else first_value m k

unfoldable pub without_key : Values → String → Values
without_key [] k = []
without_key ((k', vs) ∷ m) k = if same k' k then without_key m k else (k', vs) ∷ without_key m k

abbrev rooted : String → String
rooted path = if has_prefix path "/" then path else join "/" path

-- The path and the early data of a parsed path.
unfoldable pub early_data : Library → Url → String × ℕ
early_data l u =
    let query = l.query_values u.raw_query in
    let ed = first_value query "ed" in
    if same ed "" then (l.url_string u, 0) else elim (l.parse_uint 32 ed) [
      | none ↦ (l.url_string u, 0)
      | some n ↦ (l.url_string (record u { raw_query = l.encode (without_key query "ed") }), n)
    ]

-- The header's name is set with a path only; a path that cannot be parsed is taken as it is.
unfoldable pub upgrade_options : Library → Params → String → String → ℤ → UpgradeOptions
upgrade_options l d path header heartbeat =
    let host = get d "host" in
    let parsed : String × ℕ = elim (l.url_parse (rooted path)) [
      | none ↦ (rooted path, 0)
      | some u ↦ early_data l u
    ] in
    record {
      host_header = if same host "" then none else some host;
      path = if same path "" then "" else parsed.0;
      max_early_data = if same path "" then 0 else parsed.1;
      early_data_header_name = if same path "" then "" else header;
      heartbeat_period = heartbeat;
    }

-- A number of seconds in nanoseconds, if it is positive, or the default. The product wraps.
abbrev seconds_or : ℤ → ℤ → ℤ
seconds_or default (pos n) = if n == 0 then default else wrapped_64 (n * 1000000000)
seconds_or default (negsuc n) = default

unfoldable pub seconds_of : Library → Params → List String → ℤ → ℤ
seconds_of l d keys default =
    let v = get_one_of_n l d "" keys in
    if same v "" then default else seconds_or default (to_int l v)

unfoldable pub grpc_options : Library → Params → String → GrpcOptions
grpc_options l d path =
    let permit = get_one_of_n l d "" ("permit_without_stream" ∷ ("permitwithoutstream" ∷ [])) in
    record {
      service_name = path;
      idle_timeout = seconds_of l d ("idle_timeout" ∷ ("idletimeout" ∷ [])) (pos 15000000000);
      ping_timeout =
          seconds_of l d ("health_check_timeout" ∷ ("healthchecktimeout" ∷ [])) (pos 15000000000);
      permit_without_stream = if same permit "" then false else to_bool l permit false;
      authority = get_one_of_n l d "" ("authority" ∷ []);
      user_agent = get_one_of_n l d "" ("user_agent" ∷ ("useragent" ∷ []));
    }

unfoldable pub default_alpn : String → Params → Params
default_alpn alpn d = if same (get d "alpn") "" then set "alpn" alpn d else d

abbrev pub has_no_tls : Params → Bool
has_no_tls d =
    not (same (get d "tls") "tls")
    && (not (same (get d "tls") "reality")
        && (not (same (get d "security") "tls") && not (same (get d "security") "reality")))

unfoldable pub get_transport_options : Library → Params → Outcome (Option Transport × Params)
get_transport_options l d =
    let net = plain_net d in
    let path = path_of l d in
    if same net "tcp"
    then ok (none, d)
    else if same net "http"
    then ok (some (http (http_options l d path)), d)
    else if same net "httpupgrade"
    then (let d' = default_alpn "http/1.1" d in
        ok (some (http_upgrade (upgrade_options l d' path "" (pos 0))), d'))
    else if same net "ws"
    then (let d' = default_alpn "http/1.1" d in
        let heartbeat =
          seconds_of l d' ("heartbeatperiod" ∷ ("heartbeat_period" ∷ ("heartbeat" ∷ []))) (pos 0) in
        ok (some (ws (upgrade_options l d' path "Sec-WebSocket-Protocol" heartbeat)), d'))
    else if same net "grpc"
    then (let d' = default_alpn "h2" d in ok (some (grpc (grpc_options l d' path)), d'))
    else if same net "quic"
    then (let d' = default_alpn "h3" d in
        if has_no_tls d'
        then fail
            "quic transport requires TLS in sing-box; legacy v2ray QUIC-security links are not supported"
        else ok (some quic, d'))
    else if same net "xhttp"
    then (let d' = default_alpn "h2" d in
        ok (some (xhttp (xhttp_options l d' (get d "host") path)), d'))
    else if same net "h3"
    then fail "h3 transport not supported by InHive core (sing-box has no HTTP/3 V2Ray transport)"
    else if is_one_of net ("kcp" ∷ ("mkcp" ∷ []))
    then fail "mKCP transport not supported by InHive core"
    else fail (join "unknown transport type: " net)
