-- ===== src/Share/Transport/Xhttp.antt =====
-- xray2sing/ray2sing/common.go, the case of XHTTP in `getTransportOptions`.
use inhive_core.Prelude.{
  ℕ, String, true, false, not, ◌&&◌, [], ◌∷◌, Option, none, some, same, if◌then◌else◌, ◌==◌,
}
use inhive_core.Share.Library.{
  Library, XhttpBase, XhttpExtra, DownloadSettings, ExtraTls, ExtraReality,
}
use inhive_core.Share.Query.{Params, get?, get_one_of_n, wrapped_16}
use inhive_core.Share.Tls.{Tls, get_alpn_version}

pub record Download : Type 0 where
  pub base : XhttpBase
  pub server : String
  pub server_port : ℕ
  pub tls : Option Tls

pub record XhttpOptions : Type 0 where
  pub mode : String
  pub base : XhttpBase
  pub download : Option Download

abbrev no_tls : Tls
no_tls = record {
  enabled = true;
  server_name = "";
  insecure = false;
  disable_sni = false;
  ech = none;
  mixed_case_sni = none;
  utls = none;
  min_version = "";
  max_version = "";
  alpn = [];
  reality = none;
}

unfoldable pub tls_leg : ExtraTls → Tls
tls_leg t = record no_tls {
  alpn = t.alpn;
  insecure = t.insecure;
  server_name = t.server_name;
  utls =
      if not (same t.fingerprint "") && not (get_alpn_version t.alpn == 3)
      then some t.fingerprint
      else none;
}

unfoldable pub reality_leg : ExtraReality → Tls
reality_leg r = record no_tls {
  reality = some (record { public_key = r.public_key; short_id = r.short_id });
  server_name = r.server_name;
  utls = if same r.fingerprint "" then none else some r.fingerprint;
}

-- The TLS of the download leg by its kind of security.
unfoldable pub download_tls : DownloadSettings → Option Tls
download_tls dl =
    let with_reality : Option Tls = elim dl.reality_settings [
      | none ↦ none
      | some r ↦ some (reality_leg r)
    ] in
    let with_tls : Option Tls = elim dl.tls_settings [ none ↦ none | some t ↦ some (tls_leg t) ] in
    if same dl.security "tls"
    then with_tls
    else if same dl.security "reality"
    then with_reality
    else none

unfoldable pub download_options : DownloadSettings → String → Download
download_options dl path = record {
  base = record dl.base { path = if same dl.base.path "" then path else dl.base.path };
  server = dl.address;
  server_port = wrapped_16 dl.port;
  tls = download_tls dl;
}

abbrev first_set : String → String → String
first_set s t = if not (same s "") then s else t

-- The host and the path of the link go before those of the extra settings, unless they are empty.
unfoldable pub with_extra : XhttpExtra → String → String → XhttpOptions → XhttpOptions
with_extra x host path t = record t {
  base = record x.base { host = first_set host x.base.host; path = first_set path x.base.path };
  download = elim x.download_settings [ none ↦ none | some dl ↦ some (download_options dl path) ];
}

abbrev no_extra : XhttpExtra
no_extra = record {
  base = record { host = ""; path = ""; headers = none; tuning = "" };
  download_settings = none;
}

abbrev unmarshalled : Option XhttpExtra → XhttpExtra
unmarshalled none = no_extra
unmarshalled (some x) = x

unfoldable pub with_headers : Library → Params → XhttpOptions → XhttpOptions
with_headers l d t = elim t.base.headers [
  | some h ↦ t
  | none ↦
      let text = get_one_of_n l d "" ("headers" ∷ []) in
      if same text ""
      then t
      else record t { base = record t.base { headers = l.unmarshal_headers text } }
]

unfoldable pub xhttp_options : Library → Params → String → String → XhttpOptions
xhttp_options l d host path =
    let plain : XhttpOptions = record {
      mode = get_one_of_n l d "auto" ("mode" ∷ []);
      base = record { host = host; path = path; headers = none; tuning = "" };
      download = none;
    } in
    with_headers l d (elim (get? d "extra") [
      | none ↦ plain
      | some extra ↦ with_extra (unmarshalled (l.unmarshal_extra extra)) host path plain
    ])
