-- ===== src/Share/Links.antt =====
-- What a conversion works on, the tables of xray2sing/ray2sing/convert.go, and what it asks of the
-- parsers of single links, of the readers of containers and of Go's libraries.
use inhive_core.Share.Library.{Library}
use inhive_core.Prelude.{
  String, Bool, List, [], ◌∷◌, Option, none, some, Outcome, has_prefix, if◌then◌else◌,
}

-- An `option.Outbound` or `option.Endpoint`: they have the same fields. `detour` is none where the
-- options are no dialer wrapper; `details` stands for the other options.
pub record Entry : Type 0 where
  pub entry_type : String
  pub tag : String
  pub detour : Option String
  pub details : String

pub record OutEnd : Type 0 where
  pub outbound : Option Entry
  pub endpoint : Option Entry
  pub helper : Option Entry

pub data ParserFunc : Type 0 where
  vmess_singbox vless_singbox trojan_singbox shadowsocks_singbox tuic_singbox : ParserFunc
  hysteria_singbox hysteria2_singbox ssh_singbox naive_singbox beepass_singbox : ParserFunc
  direct_singbox any_tls_singbox shadow_tls_singbox socks_singbox http_singbox : ParserFunc
  https_singbox mieru_singbox psiphon_singbox dnstt_singbox : ParserFunc

pub data EndpointParserFunc : Type 0 where
  awg_singbox warp_singbox awg_singbox_txt : EndpointParserFunc

pub data PairParserFunc : Type 0 where
  ut_proto_singbox : PairParserFunc

-- A table's rows with the same parser, one after another.
abbrev pub each_to {ℓ} : {A : Type ℓ} → A → List String → List (String × A) → List (String × A)
each_to a [] more = more
each_to a (k ∷ ks) more = (k, a) ∷ each_to a ks more

-- A Go map has no order; no key of these tables is a prefix of a text that another one begins.
abbrev pub config_types : List (String × ParserFunc)
config_types = each_to vmess_singbox ("vmess://" ∷ ("svmess://" ∷ ("xvmess://" ∷ []))) (
    each_to vless_singbox ("vless://" ∷ ("svless://" ∷ ("xvless://" ∷ []))) (
      each_to trojan_singbox ("trojan://" ∷ ("strojan://" ∷ ("xtrojan://" ∷ []))) (
        each_to shadowsocks_singbox ("ss://" ∷ []) (
          each_to tuic_singbox ("tuic://" ∷ []) (
            each_to hysteria_singbox ("hysteria://" ∷ []) (
              each_to hysteria2_singbox ("hysteria2://" ∷ ("hy2://" ∷ [])) (
                each_to ssh_singbox ("ssh://" ∷ []) (
                  each_to naive_singbox ("naive://" ∷ ("naive+https://" ∷ ("naive+quic://" ∷ []))) (
                    each_to beepass_singbox ("ssconf://" ∷ []) (
                      each_to direct_singbox ("direct://" ∷ ("xdirect://" ∷ [])) (
                        each_to any_tls_singbox ("anytls://" ∷ []) (
                          each_to shadow_tls_singbox ("shadowtls://" ∷ []) (
                            each_to socks_singbox
                              ("socks://"
                                ∷ ("socks4://"
                                    ∷ ("socks4a://" ∷ ("socks5://" ∷ ("socks5h://" ∷ [])))))
                              (each_to http_singbox ("phttp://" ∷ ("http://" ∷ [])) (
                                each_to https_singbox ("phttps://" ∷ ("https://" ∷ [])) (
                                  each_to mieru_singbox ("mieru://" ∷ ("mierus://" ∷ [])) (
                                    each_to psiphon_singbox ("psiphon://" ∷ [])
                                      (each_to dnstt_singbox ("dnstt://" ∷ []) []))))))))))))))))))

abbrev pub endpoint_parsers : List (String × EndpointParserFunc)
endpoint_parsers =
    each_to awg_singbox ("wg://" ∷ ("wireguard://" ∷ ("awg://" ∷ [])))
      (("warp://", warp_singbox) ∷ (("[Interface]", awg_singbox_txt) ∷ []))

abbrev pub pair_parsers : List (String × PairParserFunc)
pair_parsers = ("utproto://", ut_proto_singbox) ∷ []

-- The loop over a table: the value of the key that the text begins with.
unfoldable pub first_match {ℓ} : {A : Type ℓ} → List (String × A) → String → Option A
first_match [] config = none
first_match ((k, v) ∷ m) config = if has_prefix config k then some v else first_match m config

-- A parser that returns an error returns no value with it; one that returns no error may return nil.
-- A reader of containers answers with the links and whether it knew the container.
pub record Links : Type 0 where
  pub library : Library
  pub parse : ParserFunc → String → Outcome (Option Entry)
  pub parse_endpoint : EndpointParserFunc → String → Outcome (Option Entry)
  pub parse_pair : PairParserFunc → String → Outcome (Option Entry × Option Entry)
  pub ingest_amnezia_vpn : String → Outcome (String × Bool)
  pub ingest_json : String → Outcome (String × Bool)
  pub ingest_clash_yaml : String → Outcome (String × Bool)
