-- ===== src/Config/Outbounds/Patch.antt =====
-- The patches of one outbound: `patchOutboundTLSTricks`, `isOutboundReality`, `patchOutbound`
-- and `patchWarpFromConfig`.
use inhive_core.Prelude.{Bool, true, false, ◌&&◌, ◌||◌, Option, none, some, if◌then◌else◌}
use inhive_core.Config.Tags.{warp_config_tag}
use inhive_core.Config.SingBox.{
  Outbound, OutboundType, block, dns_out, selector, url_test, psiphon, direct, vless, trojan, vmess,
  OutboundOptions, proxy, Proxy, by_pointer, by_value, TlsOptions, TransportType, websocket, grpc,
  http_upgrade,
}
use inhive_core.Config.Settings.{InhiveOptions, WarpMode, proxy_over_warp}

abbrev is_skipped : OutboundType → Bool
is_skipped selector = true
is_skipped url_test = true
is_skipped block = true
is_skipped dns_out = true
is_skipped _ = false

abbrev reality_enabled : Option TlsOptions → Bool
reality_enabled none = false
reality_enabled (some tls) = tls.enabled && elim tls.reality [ none ↦ false | some r ↦ r ]

unfoldable pub is_outbound_reality : OutboundType → Proxy → Bool
is_outbound_reality vless p = reality_enabled p.tls
is_outbound_reality _ p = false

abbrev is_tricked : TransportType → Bool
is_tricked websocket = true
is_tricked grpc = true
is_tricked http_upgrade = true
is_tricked _ = false

-- The assertions to `option.VLESSOutboundOptions` and its two siblings, which are of struct
-- types: they fail on a pointer.
unfoldable pub asserted_transport : OutboundType → Proxy → Option TransportType
asserted_transport vless p = elim p.boxing [ by_pointer ↦ none | by_value ↦ p.transport ]
asserted_transport trojan p = elim p.boxing [ by_pointer ↦ none | by_value ↦ p.transport ]
asserted_transport vmess p = elim p.boxing [ by_pointer ↦ none | by_value ↦ p.transport ]
asserted_transport _ p = none

abbrev is_set : Option Bool → Bool
is_set none = false
is_set (some b) = b

tricked_tls : Bool → TlsOptions → TransportType → TlsOptions
tricked_tls mixed tls transport =
    if tls.enabled && is_tricked transport
    then record tls { mixed_case_sni = some (is_set tls.mixed_case_sni || mixed) }
    else tls

abbrev is_direct : OutboundType → Bool
is_direct direct = true
is_direct _ = false

tricked : Bool → OutboundType → Proxy → Option TlsOptions → Option TransportType → Proxy
unfolding tricked_tls
tricked mixed kind p none transport = p
tricked mixed kind p (some tls) none = p
tricked mixed kind p (some tls) (some transport) =
    if is_direct kind then p else record p { tls = some (tricked_tls mixed tls transport) }

unfoldable pub patch_proxy : Bool → OutboundType → Proxy → Proxy
unfolding tricked asserted_transport
patch_proxy mixed kind p =
    if is_skipped kind
    then p
    else if is_outbound_reality kind p
    then p
    else tricked mixed kind p p.tls (asserted_transport kind p)

unfoldable pub patch_proxy_options : Bool → OutboundType → OutboundOptions → OutboundOptions
unfolding patch_proxy
patch_proxy_options mixed kind (proxy p) = proxy (patch_proxy mixed kind p)
patch_proxy_options mixed kind options = options

-- `patchOutboundTLSTricks`.
unfoldable pub patch_outbound_tls_tricks : Outbound → InhiveOptions → Outbound
unfolding patch_proxy_options
patch_outbound_tls_tricks base opt = record base {
  options = patch_proxy_options opt.mixed_sni_case base.outbound_type base.options;
}

-- `patchOutbound`, which returns no error.
unfoldable pub patch_outbound : Outbound → InhiveOptions → Outbound
unfolding patch_outbound_tls_tricks
patch_outbound = patch_outbound_tls_tricks

detour_options : OutboundOptions → OutboundOptions
detour_options (proxy p) =
    proxy (record p { detour = elim p.detour [ none ↦ none | some d ↦ some warp_config_tag ] })
detour_options options = options

abbrev pub is_psiphon : OutboundType → Bool
is_psiphon psiphon = true
is_psiphon _ = false

abbrev is_proxy_over_warp : WarpMode → Bool
is_proxy_over_warp proxy_over_warp = true
is_proxy_over_warp _ = false

unfoldable pub patch_warp_from_config : Outbound → InhiveOptions → Outbound
unfolding detour_options
patch_warp_from_config out opt =
    if is_psiphon out.outbound_type
    then out
    else if opt.warp.enable_warp && is_proxy_over_warp opt.warp.mode
    then record out { options = detour_options out.options }
    else out
