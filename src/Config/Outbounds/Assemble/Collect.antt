-- ===== src/Config/Outbounds/Assemble/Collect.antt =====
-- The two loops of `setOutbounds` of v2/config/builder_outbound.go, and the WARP endpoint between them.
use inhive_core.Prelude.{
  ℕ, String, Bool, true, false, ◌&&◌, ◌||◌, List, [], ◌∷◌, ◌++◌, same, has_part, max, if◌then◌else◌,
}
use inhive_core.Config.Tags.{
  outbound_direct_tag, outbound_select_tag, outbound_direct_fragment_tag, warp_config_tag,
  predefined_outbound_tags,
}
use inhive_core.Config.SingBox.{
  Outbound, OutboundType, block, dns_out, selector, url_test, custom, Endpoint, EndpointType, warp,
  wire_guard, EndpointOptions, warp_options, wire_guard_options,
}
use inhive_core.Config.Settings.{InhiveOptions, WarpMode, warp_over_proxy}
use inhive_core.Config.Env.{Env}
use inhive_core.Config.Helpers.{contains}
use inhive_core.Config.Outbounds.Patch.{patch_outbound, patch_warp_from_config, is_psiphon}
use inhive_core.Config.Warp.{generate_warp_singbox_new, patch_warp}

-- The variables that the loops write.
pub record Collected : Type 0 where
  pub outbounds : List Outbound
  pub tags : List String
  pub has_psiphon : Bool

abbrev pub is_dropped : OutboundType → Bool
is_dropped block = true
is_dropped dns_out = true
is_dropped selector = true
is_dropped url_test = true
is_dropped custom = true
is_dropped _ = false

abbrev pub plain_tags : List String
plain_tags = "direct" ∷ "bypass" ∷ "block" ∷ []

abbrev pub visible : String → List String → List String
visible tag tags = if has_part tag "§hide§" then tags else tags ++ tag ∷ []

-- The end of a round, for an outbound that is kept.
unfoldable pub keep_outbound : InhiveOptions → Collected → Outbound → Collected
keep_outbound opt c out = record {
  outbounds = c.outbounds ++ patch_warp_from_config (patch_outbound out opt) opt ∷ [];
  tags = visible out.tag c.tags;
  has_psiphon = c.has_psiphon || is_psiphon out.outbound_type;
}

unfoldable pub collect_outbound : InhiveOptions → Collected → Outbound → Collected
unfolding keep_outbound
collect_outbound opt c out =
    if contains predefined_outbound_tags out.tag
    then c
    else if is_dropped out.outbound_type
    then c
    else if contains plain_tags out.tag
    then c
    else if is_psiphon out.outbound_type && c.has_psiphon
    then c
    else keep_outbound opt c out

unfoldable pub collect_outbounds : InhiveOptions → Collected → List Outbound → Collected
unfolding collect_outbound
collect_outbounds opt c [] = c
collect_outbounds opt c (out ∷ outs) = collect_outbounds opt (collect_outbound opt c out) outs

abbrev pub is_over_proxy : WarpMode → Bool
is_over_proxy warp_over_proxy = true
is_over_proxy _ = false

detour_warp : InhiveOptions → EndpointOptions → EndpointOptions
detour_warp opt (warp_options w) =
    if is_over_proxy opt.warp.mode
    then warp_options (record w { detour = outbound_select_tag; mtu = 1280 })
    else warp_options (record w { detour = outbound_direct_tag })
detour_warp opt options = options

-- The endpoint that WARP adds, patched.
unfoldable pub warp_endpoint : Env → InhiveOptions → Endpoint
unfolding detour_warp generate_warp_singbox_new patch_warp
warp_endpoint env opt =
    let out = generate_warp_singbox_new "p1" in
    patch_warp env outbound_direct_fragment_tag true
      (record out { tag = warp_config_tag; options = detour_warp opt out.options })

-- An endpoint of the input that WARP replaces.
unfoldable pub is_replaced : InhiveOptions → EndpointType → EndpointOptions → Bool
is_replaced opt warp (warp_options w) = opt.warp.enable_warp && same w.unique_identifier "p1"
is_replaced opt wire_guard (wire_guard_options w) =
    opt.warp.enable_warp && same w.private_key opt.warp.private_key
is_replaced opt _ _ = false

abbrev is_tunnel : EndpointType → EndpointOptions → Bool
is_tunnel warp (warp_options _) = true
is_tunnel wire_guard (wire_guard_options _) = true
is_tunnel _ _ = false

pub record Ends : Type 0 where
  pub endpoints : List Endpoint
  pub tags : List String
  pub mtu : ℕ

unfoldable pub keep_endpoint : Env → InhiveOptions → Ends → Endpoint → Ends
keep_endpoint env opt e end = record {
  endpoints = e.endpoints ++ patch_warp env outbound_direct_fragment_tag true end ∷ [];
  tags = visible end.tag e.tags;
  mtu =
      if opt.warp.enable_warp
        && is_over_proxy opt.warp.mode
        && is_tunnel end.endpoint_type end.options
      then max e.mtu 1340
      else e.mtu;
}

unfoldable pub collect_endpoint : Env → InhiveOptions → Ends → Endpoint → Ends
unfolding is_replaced keep_endpoint
collect_endpoint env opt e end =
    if contains predefined_outbound_tags end.tag
    then e
    else if is_replaced opt end.endpoint_type end.options
    then e
    else keep_endpoint env opt e end

unfoldable pub collect_endpoints : Env → InhiveOptions → Ends → List Endpoint → Ends
unfolding collect_endpoint
collect_endpoints env opt e [] = e
collect_endpoints env opt e (end ∷ ends) =
    collect_endpoints env opt (collect_endpoint env opt e end) ends
