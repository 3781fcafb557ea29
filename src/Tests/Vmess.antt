-- ===== src/Tests/Vmess.antt =====
-- A run of Share/Vmess on a link with JSON in base64.
use inhive_core.Prelude.{true, false, [], ◌∷◌, none, some, refl}
use inhive_core.Share.Library.{pos}
use inhive_core.Share.Lines.{decode_base64_fault_tolerant}
use inhive_core.Share.Query.{get?}
use inhive_core.Share.Transport.{get_transport_options, plain_net, net_of}
use inhive_core.Share.Url.{split_in_two}
use inhive_core.Share.Vmess.{
  VmessLibrary, VmessOutbound, text, number, boolean, vmess_singbox, decode_vmess,
  decode_vmess_json, vmess_decoded, normalize_vmess_json_fields, with_lower_keys,
  convert_to_strings,
}
use inhive_core.Share.Vmess.Normal.{NormalVmess, vmess_singbox-NormalVmess}
use inhive_core.Tests.Samples.{value_of}
use inhive_core.Tests.Shares.{library}

abbrev json_library : VmessLibrary
json_library = record {
  library = record library { std_decode = λ s. some "{" };
  decode_object = λ s. some (
      ("add", text "example.org")
      ∷ (("port", number "8443")
          ∷ (("id", text "user") ∷ (("tls", boolean true) ∷ (("scy", text "zero") ∷ [])))));
  without_trailing_commas = λ s. s;
  query_unescape = λ s. some s;
}

abbrev no_vmess : VmessOutbound
no_vmess = record {
  tag = "";
  server = "";
  server_port = 0;
  uuid = "";
  security = "";
  alter_id = pos 0;
  authenticated_length = false;
  packet_encoding = "";
  tls = none;
  transport = none;
  multiplex = none;
}

abbrev vmess_node : VmessOutbound
vmess_node = value_of no_vmess (vmess_singbox json_library "vmess://e30=#node")

vmess_singbox-NormalVmess_example : NormalVmess vmess_node
unfolding vmess_singbox decode_vmess decode_base64_fault_tolerant decode_vmess_json vmess_decoded
    get_transport_options plain_net get? split_in_two normalize_vmess_json_fields with_lower_keys
    convert_to_strings net_of
vmess_singbox-NormalVmess_example =
    vmess_singbox-NormalVmess json_library "vmess://e30=#node" {o = vmess_node} refl
