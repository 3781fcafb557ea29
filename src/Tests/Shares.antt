-- ===== src/Tests/Shares.antt =====
-- Runs of the conversion of share links.
use inhive_core.Prelude.{
  ℕ, zero, suc, String, false, List, [], ◌∷◌, none, some, ok, fail, ◌≡◌, refl, ap, arith, All, same,
  if◌then◌else◌,
}
use inhive_core.Share.Library.{Library, Url, pos}
use inhive_core.Share.Links.{Links, Entry, first_match}
use inhive_core.Share.Lines.{
  expand_decoded_config, split_by_prefix, trimmed_lines, with_line_ends, decode_base64_if_needed,
  decode_base64_fault_tolerant, added_configs, decoded_lines, padded, pieces, without_space,
}
use inhive_core.Share.Convert.{
  Conversion, generate_config_lite, add_configs, nothing_converted, conversion, ingested,
  add_config, add_chain, add_outend, process_single_config, try_outbound, interface_head,
  lower_scheme, add_parts, finished, try_endpoint, try_pair, with_endpoint, with_outbound,
  with_pair,
}
use inhive_core.Share.Query.{get?, normalize_str, replace_char, normalize_vless_flow, get_one_of_n}
use inhive_core.Share.Url.{
  user_info, parse_url, override_raw_query_params, override_pairs, override_pair, split_in_two,
  query_params,
}
use inhive_core.Share.Transport.{get_transport_options, plain_net, net_of, default_alpn}
use inhive_core.Share.Convert.Words.{has_space}
use inhive_core.Share.Convert.Chained.{Dials, converted, generate_config_lite-Dials}
use inhive_core.Share.Convert.Numbered.{DistinctTags, generate_config_lite-DistinctTags}
use inhive_core.Share.Convert.Failures.{add_configs-bad_line}
use inhive_core.Share.Parsers.{
  VlessOutbound, vless_singbox, vless_parsed, TrojanOutbound, trojan_singbox,
}
use inhive_core.Share.Parsers.Normal.{NormalVless, vless_singbox-NormalVless}
use inhive_core.Share.Tuic.{TuicOutbound, tuic_singbox, tuic_parsed, looks_like_uuid, uuid_from}
use inhive_core.Share.Tuic.Safe.{TuicSafe, tuic_singbox-TuicSafe}
use inhive_core.Tests.Samples.{value_of}

-- A number by as many strokes.
abbrev pub tally : ℕ → String
tally zero = String.[]
tally (suc n) = String.◌∷◌ "1" (tally n)

abbrev strokes : String → ℕ
strokes String.[] = 0
strokes (String.◌∷◌ c s) = suc (strokes s)

strokes-tally : (n : ℕ) → strokes (tally n) ≡ n
strokes-tally zero = refl
strokes-tally (suc n) = ap suc (strokes-tally n)

tally_injective : (i j : ℕ) → tally i ≡ tally j → i ≡ j
tally_injective i j e = omega (arith, strokes-tally i, strokes-tally j, ap strokes e)

tally_plain : (n : ℕ) → has_space (tally n) ≡ false
unfolding has_space
tally_plain zero = refl
tally_plain (suc n) = tally_plain n

abbrev sample_split : String → String → List String
sample_split s sep =
    if same s "utproto://a -> ss://b" then "utproto://a" ∷ ("ss://b" ∷ []) else s ∷ []

abbrev pub share_url : Url
share_url = record {
  scheme = "vless";
  username = "id";
  password = none;
  hostname = "example.org";
  port = "8443";
  path = "";
  raw_query = "query";
  fragment = "node";
}

abbrev thirty_two : List ℕ
thirty_two =
    0
    ∷ (0
        ∷ (0
            ∷ (0
                ∷ (0
                    ∷ (0
                        ∷ (0
                            ∷ (0
                                ∷ (0
                                    ∷ (0
                                        ∷ (0
                                            ∷ (0
                                                ∷ (0
                                                    ∷ (0
                                                        ∷ (0
                                                            ∷ (0
                                                            ∷ (0
                                                            ∷ (0
                                                            ∷ (0
                                                            ∷ (0
                                                            ∷ (0
                                                            ∷ (0
                                                            ∷ (0
                                                            ∷ (0
                                                            ∷ (0
                                                            ∷ (0
                                                            ∷ (0
                                                            ∷ (0
                                                            ∷ (0
                                                            ∷ (0
                                                            ∷ (0
                                                            ∷ (0 ∷ [])))))))))))))))))))))))))))))))

abbrev pub library : Library
library = record {
  to_lower = λ s. s;
  trim_space = λ s. s;
  split = sample_split;
  itoa = tally;
  atoi = λ s. if same s "8" then some (pos 8) else none;
  atoi_value = λ s. pos 0;
  parse_duration = λ s. none;
  is_ip = λ s. false;
  parse_uint = λ bits s. some 8443;
  std_decode = λ s. none;
  raw_std_decode = λ s. none;
  url_decode = λ s. none;
  find_all_string_index = λ s. [];
  url_parse = λ s. some share_url;
  url_string = λ u. u.path;
  query_values = λ s.
      ("security", "reality" ∷ [])
      ∷ (("type", "quic" ∷ []) ∷ (("sid", "0a1b" ∷ []) ∷ (("muxtype", "h2" ∷ []) ∷ [])));
  encode = λ v. "";
  path_unescape = λ s. some s;
  unmarshal_headers = λ s. none;
  unmarshal_extra = λ s. none;
  fields = λ s. s ∷ [];
  decode_bytes = λ s. if same s "key" then some thirty_two else none;
  encode_bytes = λ b. "key";
  is_hex_text = λ s. false;
  parse_prefix = λ s. none;
  parse_addr = λ s. none;
  split_host_port = λ s. some (s, "51820");
  range_of = λ s. record { from = pos 0; to = pos 0 };
}

abbrev share_node : String → Entry
share_node tag = record { entry_type = "proxy"; tag = tag; detour = some ""; details = "" }

abbrev links : Links
links = record {
  library = library;
  parse = λ f s. if same s "ss://bad" then fail "bad" else ok (some (share_node "plain"));
  parse_endpoint = λ f s. ok (some (share_node "endpoint"));
  parse_pair = λ f s. ok (some (share_node "main"), some (share_node "helper"));
  ingest_amnezia_vpn = λ s. ok (s, false);
  ingest_json = λ s. ok (s, false);
  ingest_clash_yaml = λ s. ok (s, false);
}

abbrev no_conversion : Conversion
no_conversion = record { outbounds = []; endpoints = [] }

abbrev chain_converted : Conversion
chain_converted = value_of no_conversion (generate_config_lite links "utproto://a -> ss://b")

generate_config_lite-Dials_example :
    All (Dials (converted chain_converted)) (converted chain_converted)
unfolding generate_config_lite ingested conversion add_configs expand_decoded_config split_by_prefix
    trimmed_lines with_line_ends decode_base64_if_needed decode_base64_fault_tolerant add_config
    add_chain add_outend process_single_config try_outbound first_match interface_head lower_scheme
    add_parts finished try_endpoint try_pair with_endpoint with_outbound with_pair added_configs
    decoded_lines padded pieces without_space
generate_config_lite-Dials_example =
    generate_config_lite-Dials links "utproto://a -> ss://b" {c = chain_converted} refl

generate_config_lite-DistinctTags_example : DistinctTags (converted chain_converted)
unfolding generate_config_lite ingested conversion add_configs expand_decoded_config split_by_prefix
    trimmed_lines with_line_ends decode_base64_if_needed decode_base64_fault_tolerant add_config
    add_chain add_outend process_single_config try_outbound first_match interface_head lower_scheme
    add_parts finished try_endpoint try_pair with_endpoint with_outbound with_pair added_configs
    decoded_lines padded pieces without_space
generate_config_lite-DistinctTags_example =
    generate_config_lite-DistinctTags links tally_injective tally_plain "utproto://a -> ss://b"
      {c = chain_converted} refl

add_configs-bad_line_example :
    conversion (add_configs links ("ss://b" ∷ ("ss://bad" ∷ ("ss://c" ∷ []))) nothing_converted)
    ≡ conversion (add_configs links ("ss://b" ∷ ("ss://c" ∷ [])) nothing_converted)
unfolding process_single_config try_outbound first_match interface_head lower_scheme
    decode_base64_if_needed decode_base64_fault_tolerant with_outbound try_endpoint try_pair
    finished
add_configs-bad_line_example =
    add_configs-bad_line links ("ss://b" ∷ []) ("ss://c" ∷ []) "ss://bad" (("bad", refl), tt)

abbrev no_vless : VlessOutbound
no_vless = record {
  tag = "";
  server = "";
  server_port = 0;
  uuid = "";
  packet_encoding = "";
  flow = "";
  tls = none;
  transport = none;
  multiplex = none;
}

abbrev vless_node : VlessOutbound
vless_node = value_of no_vless (vless_singbox library "vless://id@example.org:8443")

vless_singbox-NormalVless_example : NormalVless vless_node
unfolding vless_singbox parse_url vless_parsed get? override_raw_query_params override_pairs
    override_pair split_in_two query_params normalize_str replace_char normalize_vless_flow
    get_transport_options plain_net net_of default_alpn
vless_singbox-NormalVless_example =
    vless_singbox-NormalVless library "vless://id@example.org:8443" {o = vless_node} refl

abbrev no_trojan : TrojanOutbound
no_trojan = record {
  tag = "";
  server = "";
  server_port = 0;
  password = "";
  tls = none;
  transport = none;
  multiplex = none;
}

abbrev trojan_node : TrojanOutbound
trojan_node = value_of no_trojan (trojan_singbox library "trojan://id@example.org:8443")

abbrev no_tuic : TuicOutbound
no_tuic = record {
  tag = "";
  server = "";
  server_port = 0;
  uuid = "";
  password = "";
  congestion_control = "";
  udp_relay_mode = "";
  udp_over_stream = false;
  zero_rtt_handshake = false;
  heartbeat = pos 1;
  server_name = "";
  disable_sni = false;
  insecure = false;
  alpn = [];
  has_ech = false;
}

-- 9300000000 seconds do not fit in a duration.
abbrev tuic_library : Library
tuic_library = record library {
  url_parse = λ s. some (record share_url { username = "00000000-1111-2222-3333-abcdefABCDEF" });
  query_values = λ s. ("heartbeat", "9300000000" ∷ []) ∷ [];
  atoi = λ s. some (pos 9300000000);
}

abbrev tuic_node : TuicOutbound
tuic_node = value_of no_tuic (tuic_singbox tuic_library "tuic://id@example.org")

tuic_singbox-TuicSafe_example : TuicSafe tuic_node
unfolding tuic_singbox tuic_parsed parse_url get? override_raw_query_params override_pairs
    override_pair split_in_two query_params normalize_str replace_char get_one_of_n looks_like_uuid
    uuid_from user_info
tuic_singbox-TuicSafe_example =
    tuic_singbox-TuicSafe tuic_library "tuic://id@example.org" {o = tuic_node} refl
