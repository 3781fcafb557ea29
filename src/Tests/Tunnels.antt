-- ===== src/Tests/Tunnels.antt =====
-- Runs of Share/Awg on a text of wg-quick and on links.
use Prim.Native.String.{String}
use inhive_core.Prelude.{
  true, ◌↔◌, List, [], ◌∷◌, Option, none, some, ok, same, if◌then◌else◌, ◌≡◌, refl,
}
use inhive_core.Share.Library.{Library, pos}
use inhive_core.Share.Lines.{
  decode_base64_fault_tolerant, decode_base64_if_needed, padded, without_space,
}
use inhive_core.Share.Query.{
  get?, get_one_of_n, to_uint16, replace_char, trim_padding, normalize_str,
}
use inhive_core.Share.Url.{
  parse_url, split_in_two, user_info, query_params, override_raw_query_params, override_pairs,
  override_pair,
}
use inhive_core.Share.Awg.{
  WgEndpoint, wireguard, normalize_wg_key, validate_magic_header, validate_obf_spec, obf_from,
  is_known_tag, clamp_awg_int, clamped, validate_specs, is_plain,
}
use inhive_core.Share.Awg.Text.{
  flush_peer, canonical_wg_key, set_obfuscation, interface_line, peer_line, without_comment,
  key_line, trim_left_brackets, trim_right_brackets, is_header, text_line, text_lines, checked_peer,
  checked_peers, text_endpoint, awg_singbox_txt, no_noise, wg_tunnel, initial,
}
use inhive_core.Share.Awg.Link.{
  decoded_link, parse_prefixes, link_obfuscation, link_private_key, link_public_key, link_keyed,
  link_parsed, awg_singbox,
}
use inhive_core.Share.Awg.Grammar.{Chain, validate_obf_spec_iff}
use inhive_core.Share.Awg.Accepted.Values.{IsKey}
use inhive_core.Share.Awg.Accepted.Peers.{IsAccepted}
use inhive_core.Share.Awg.Accepted.Texts.{awg_singbox_txt-IsAccepted}
use inhive_core.Share.Awg.Accepted.Links.{IsAnswer, awg_singbox-IsAnswer}
use inhive_core.Tests.Samples.{value_of}
use inhive_core.Tests.Shares.{library}

abbrev sample_lines : List String
sample_lines =
    "[interface]"
    ∷ ("privatekey=key"
        ∷ ("jc=4"
            ∷ ("i1=<b 0x01>"
                ∷ ("[peer]" ∷ ("publickey=key" ∷ ("endpoint=example.org # first" ∷ []))))))

abbrev wg_library : Library
wg_library = record library {
  split = λ s sep. if same s "text" then sample_lines else s ∷ [];
  atoi = λ s. some (pos 51820);
  atoi_value = λ s. pos 4;
  is_hex_text = λ s. true;
  fields = λ s. "b" ∷ ("0x01" ∷ []);
  decode_bytes = λ s. if same s "key=" then library.decode_bytes "key" else none;
  query_values = λ s. [];
}

abbrev no_endpoint : WgEndpoint
no_endpoint = wireguard (wg_tunnel "" "" initial []) no_noise (pos 0)

abbrev text_node : WgEndpoint
text_node = value_of no_endpoint (awg_singbox_txt wg_library "text")

awg_singbox_txt-IsAccepted_example : IsAccepted (IsKey wg_library) wg_library text_node
unfolding awg_singbox_txt text_lines text_line is_header flush_peer trim_left_brackets
    trim_right_brackets split_in_two key_line without_comment interface_line peer_line
    set_obfuscation canonical_wg_key get? text_endpoint checked_peers checked_peer normalize_wg_key
    replace_char trim_padding padded clamped clamp_awg_int validate_specs validate_magic_header
    validate_obf_spec obf_from is_known_tag is_plain
awg_singbox_txt-IsAccepted_example =
    awg_singbox_txt-IsAccepted wg_library (λ s. refl) "text" {e = text_node} refl

-- A link with both keys.
abbrev link_library : Library
link_library = record wg_library {
  query_values = λ s. ("privatekey", "key=" ∷ []) ∷ (("publickey", "key=" ∷ []) ∷ []);
}

abbrev link_answer : Option WgEndpoint
link_answer = value_of none (awg_singbox link_library "awg://example.org")

awg_singbox-IsAnswer_example : IsAnswer link_library "awg://example.org" link_answer
unfolding awg_singbox decoded_link decode_base64_if_needed decode_base64_fault_tolerant padded
    without_space parse_url user_info query_params override_raw_query_params override_pairs
    override_pair get? normalize_str replace_char split_in_two link_parsed parse_prefixes
    get_one_of_n link_private_key link_public_key to_uint16 link_keyed normalize_wg_key trim_padding
    validate_specs validate_magic_header link_obfuscation clamped validate_obf_spec obf_from
awg_singbox-IsAnswer_example =
    awg_singbox-IsAnswer link_library (λ s. refl) "awg://example.org" {r = link_answer} refl

validate_obf_spec_iff_example :
    (validate_obf_spec wg_library "a<b 0x01>" ≡ ok tt) ↔ Chain wg_library "a<b 0x01>"
validate_obf_spec_iff_example = validate_obf_spec_iff wg_library "a<b 0x01>"
