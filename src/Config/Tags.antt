-- ===== src/Config/Tags.antt =====
-- The tags of v2/config/builder.go, by which the parts of a configuration name one another.
use inhive_core.Prelude.{String, List, [], ◌∷◌}

abbrev pub dns_remote_tag : String
dns_remote_tag = "dns-remote"

abbrev pub dns_remote_tag_fallback : String
dns_remote_tag_fallback = "dns-remote-fallback"

abbrev pub dns_local_tag : String
dns_local_tag = "dns-local"

abbrev pub dns_static_tag : String
dns_static_tag = "dns-static"

abbrev pub dns_direct_tag : String
dns_direct_tag = "dns-direct"

abbrev pub dns_remote_no_warp_tag : String
dns_remote_no_warp_tag = "dns-remote-no-warp"

abbrev pub dns_fake_tag : String
dns_fake_tag = "dns-fake"

abbrev pub dns_tricks_direct_tag : String
dns_tricks_direct_tag = "dns-trick-direct"

abbrev pub dns_multi_direct_tag : String
dns_multi_direct_tag = "dns-direct"

abbrev pub dns_multi_remote_tag : String
dns_multi_remote_tag = "dns-remote"

abbrev pub outbound_direct_tag : String
outbound_direct_tag = "direct §hide§"

abbrev pub outbound_bypass_tag : String
outbound_bypass_tag = "bypass §hide§"

abbrev pub outbound_select_tag : String
outbound_select_tag = "select"

abbrev pub outbound_url_test_tag : String
outbound_url_test_tag = "lowest"

abbrev pub outbound_round_robin_tag : String
outbound_round_robin_tag = "balance"

abbrev pub outbound_dns_tag : String
outbound_dns_tag = "dns-out §hide§"

abbrev pub outbound_direct_fragment_tag : String
outbound_direct_fragment_tag = "direct-fragment §hide§"

abbrev pub warp_config_tag : String
warp_config_tag = "🔒 WARP"

abbrev pub inbound_tun_tag : String
inbound_tun_tag = "tun-in"

abbrev pub inbound_mixed_tag : String
inbound_mixed_tag = "mixed-in"

abbrev pub inbound_tproxy : String
inbound_tproxy = "tproxy-in"

abbrev pub inbound_redirect : String
inbound_redirect = "redirect-in"

abbrev pub inbound_direct_tag : String
inbound_direct_tag = "dns-in"

abbrev pub predefined_outbound_tags : List String
predefined_outbound_tags =
    outbound_direct_tag ∷ outbound_bypass_tag ∷ outbound_select_tag ∷ outbound_url_test_tag
    ∷ outbound_dns_tag ∷ outbound_direct_fragment_tag ∷ warp_config_tag ∷ []
