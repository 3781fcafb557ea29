-- ===== src/Config/Warp.antt =====
-- v2/config/warp.go: the WARP endpoint that is added, and the patch of WARP and WireGuard endpoints.
pub mod Peers
use inhive_core.Prelude.{
  ℕ, String, Bool, true, false, not, ◌&&◌, ◌||◌, List, [], ◌∷◌, Option, none, some, same, ltb, ◌==◌,
  if◌then◌else◌,
}
use inhive_core.Config.Tags.{outbound_select_tag}
use inhive_core.Config.SingBox.{
  Endpoint, EndpointType, warp, wire_guard, EndpointOptions, warp_options, wire_guard_options,
  WireGuard, WireGuardPeer,
}
use inhive_core.Config.Env.{Env}
use inhive_core.Config.Helpers.{is_blocked_domain}

unfoldable pub generate_warp_singbox_new : String → Endpoint
generate_warp_singbox_new unique_identifier = record {
  endpoint_type = warp;
  tag = "WARP";
  options = warp_options (record {
    unique_identifier = unique_identifier;
    profile_detour = outbound_select_tag;
    server = "";
    server_port = 0;
    detour = "";
    mtu = 1280;
  });
}

-- The address of the first peer after the tests for "auto" and its kin; the second test reads what
-- the first one wrote.
unfoldable pub chosen_host : Env → String → String
chosen_host env host =
    let first = if not (same host "auto4") && same host "auto6" then env.random_warp_v6 else host in
    if not (same first "auto6") then env.random_warp_v4 else first

abbrev pub is_automatic : Env → String → Bool
is_automatic env host =
    same host "default"
    || same host "random"
    || same host "auto"
    || same host "auto4"
    || same host "auto6"
    || is_blocked_domain env host

unfoldable pub patch_peer : Env → WireGuardPeer → WireGuardPeer
patch_peer env peer =
    let host = if same peer.address "" then "auto" else peer.address in
    record peer {
      address = if is_automatic env host then chosen_host env host else peer.address;
      port = if peer.port == 0 then env.random_warp_port else peer.port;
    }

unfoldable pub patch_peers : Env → List WireGuardPeer → List WireGuardPeer
patch_peers env [] = patch_peer env (record { address = "auto"; port = 0; public_key = "" }) ∷ []
patch_peers env (peer ∷ peers) = patch_peer env peer ∷ peers

unfoldable pub patch_detoured : WireGuard → WireGuard
patch_detoured w =
    if same w.detour ""
    then w
    else record w { mtu = if ltb w.mtu 100 then 1280 else w.mtu; noise = "" }

-- The type of the endpoint and the struct behind it decide together.
unfoldable pub patch_options :
    Env → String → Bool → EndpointType → EndpointOptions → EndpointOptions
unfolding patch_peers patch_detoured
patch_options env warp_detour final warp (warp_options w) =
    warp_options (record w { server = ""; server_port = 0; profile_detour = warp_detour })
patch_options env warp_detour true wire_guard (wire_guard_options w) =
    wire_guard_options (patch_detoured (record w { peers = patch_peers env w.peers }))
patch_options env warp_detour _ _ options = options

-- `patchWarp`; `warp_detour` is the variable `OutboundWARPConfigDetour`.
unfoldable pub patch_warp : Env → String → Bool → Endpoint → Endpoint
unfolding patch_options
patch_warp env warp_detour final base = record base {
  options = patch_options env warp_detour final base.endpoint_type base.options;
}
