-- ===== src/Share/Library.antt =====
-- What xray2sing/ray2sing calls of Go's libraries.
use inhive_core.Prelude.{ℕ, String, Bool, List, Option}

-- A Go `int`.
pub data ℤ : Type 0 where
  pos : ℕ → ℤ
  negsuc : ℕ → ℤ

-- `net/url.URL`; `password` is none where the user information has none.
pub record Url : Type 0 where
  pub scheme : String
  pub username : String
  pub password : Option String
  pub hostname : String
  pub port : String
  pub path : String
  pub raw_query : String
  pub fragment : String

-- `url.Values` in the order of the iteration.
abbrev pub Values : Type 0
Values = List (String × List String)

-- `V2RayXHTTPBaseOptions`; `tuning` stands for the fields that the converter passes on unread.
pub record XhttpBase : Type 0 where
  pub host : String
  pub path : String
  pub headers : Option (List (String × String))
  pub tuning : String

pub record ExtraTls : Type 0 where
  pub alpn : List String
  pub insecure : Bool
  pub server_name : String
  pub fingerprint : String

pub record ExtraReality : Type 0 where
  pub public_key : String
  pub short_id : String
  pub server_name : String
  pub fingerprint : String

pub record DownloadSettings : Type 0 where
  pub base : XhttpBase
  pub address : String
  pub port : ℤ
  pub security : String
  pub tls_settings : Option ExtraTls
  pub reality_settings : Option ExtraReality

-- `XHTTPExtra`.
pub record XhttpExtra : Type 0 where
  pub base : XhttpBase
  pub download_settings : Option DownloadSettings

-- `netip.Addr` with its `BitLen`, and `netip.Prefix`.
pub record Address : Type 0 where
  pub text : String
  pub bit_len : ℕ

pub record Prefix : Type 0 where
  pub address : Address
  pub bits : ℕ

-- `warpobf.Range`.
pub record Range : Type 0 where
  pub from : ℤ
  pub to : ℤ

-- `strings`, `strconv`, `encoding/base64`, `encoding/hex`, `net`, `net/netip`,
-- `net/url` and `encoding/json`; none is an error. `atoi_value` is the value of `Atoi` whose
-- error is not read. `range_of` is the decoder of `warpobf.Range`, which
-- gives the zero range for a text that is none.
pub record Library : Type 0 where
  pub to_lower : String → String
  pub trim_space : String → String
  pub split : String → String → List String
  pub itoa : ℕ → String
  pub atoi : String → Option ℤ
  pub atoi_value : String → ℤ
  pub parse_duration : String → Option ℤ
  pub is_ip : String → Bool
  pub parse_uint : ℕ → String → Option ℕ
  pub std_decode : String → Option String
  pub raw_std_decode : String → Option String
  pub url_decode : String → Option String
  pub find_all_string_index : String → List (ℕ × ℕ)
  pub url_parse : String → Option Url
  pub url_string : Url → String
  pub query_values : String → Values
  pub encode : Values → String
  pub path_unescape : String → Option String
  pub unmarshal_headers : String → Option (List (String × String))
  pub unmarshal_extra : String → Option XhttpExtra
  pub fields : String → List String
  pub decode_bytes : String → Option (List ℕ)
  pub encode_bytes : List ℕ → String
  pub is_hex_text : String → Bool
  pub parse_prefix : String → Option Prefix
  pub parse_addr : String → Option Address
  pub split_host_port : String → Option (String × String)
  pub range_of : String → Range
