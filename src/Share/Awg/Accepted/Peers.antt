-- ===== src/Share/Awg/Accepted/Peers.antt =====
-- What the checks ask of a WireGuard or AmneziaWG endpoint.
use Prim.Native.String.{String}
use inhive_core.Prelude.{[], ◌≡◌, ◌≢◌, ◌⊎◌, All}
use inhive_core.Share.Library.{Library}
use inhive_core.Share.Awg.{Peer, Tunnel, WgEndpoint, wireguard, awg}
use inhive_core.Share.Awg.Accepted.Values.{IsKey, IsReserved, IsCount, IsObfuscation}

-- A peer has an address, a port, a key, perhaps a shared key, none or three reserved bytes, and traffic.
-- The parameter says what a key is.
abbrev pub IsPeer : (String → Type 0) → Library → Peer → Type 0
IsPeer K l p =
    (p.address ≢ "")
    × (p.port ≢ 0)
    × K p.public_key
    × ((p.preshared_key ≡ "") ⊎ IsKey l p.preshared_key)
    × IsReserved p.reserved
    × (p.allowed_ips ≢ [])

abbrev pub IsTunnel : (String → Type 0) → Library → Tunnel → Type 0
IsTunnel K l t = K t.private_key × (t.peers ≢ []) × All (IsPeer K l) t.peers

-- Plain WireGuard has a number of workers that is not negative; AmneziaWG's settings can be read.
abbrev pub IsAccepted : (String → Type 0) → Library → WgEndpoint → Type 0
IsAccepted K l (wireguard t noise workers) = IsTunnel K l t × IsCount workers
IsAccepted K l (awg t o) = IsTunnel K l t × IsObfuscation l o
