-- ===== src/Config/Warp/Peers.antt =====
-- The peers that `patchWarp` leaves in a WireGuard endpoint.
use inhive_core.Prelude.{
  String, List, ◌∷◌, ◌≡◌, ◌≢◌, refl, arith, same, ◌==◌, eq_iff, same-ne, ap, subst, sym, Bool-cases,
  inl, inr, if◌then◌else◌,
}
use inhive_core.Config.SingBox.{WireGuardPeer}
use inhive_core.Config.Env.{Env}
use inhive_core.Config.Warp.{is_automatic, chosen_host, patch_peer, patch_peers}

chosen_host-v4 :
    (env : Env) (host : String)
    → env.random_warp_v6 ≢ "auto6"
    → chosen_host env host ≡ env.random_warp_v4
unfolding chosen_host
chosen_host-v4 env host h = elim (Bool-cases (same host "auto6")) [
  | inl six ↦
      subst (λ x. chosen_host env x ≡ env.random_warp_v4) (sym ((eq_iff host "auto6").0 six))
        (rw (same-ne env.random_warp_v6 "auto6" h))
  | inr other ↦ ground arith
]

abbrev pub host_of_peer : WireGuardPeer → String
host_of_peer peer = if same peer.address "" then "auto" else peer.address

-- If the random IPv6 address is not the text "auto6", then the first peer keeps its public key, and
-- its address unless that is one to choose automatically; the address is the random IPv4 address
-- otherwise, for "auto6" too. A port that is 0 becomes the random port, and the other peers stay as
-- they are.
pub patch_peers-first :
    (env : Env) (peer : WireGuardPeer) (peers : List WireGuardPeer)
    → env.random_warp_v6 ≢ "auto6"
    → (q : WireGuardPeer) × (patch_peers env (peer ∷ peers) ≡ q ∷ peers)
      × (q.address
          ≡ (if is_automatic env (host_of_peer peer) then env.random_warp_v4 else peer.address))
      × (q.port ≡ (if peer.port == 0 then env.random_warp_port else peer.port))
      × (q.public_key ≡ peer.public_key)
unfolding patch_peers patch_peer
patch_peers-first env peer peers h = (
  patch_peer env peer,
  refl,
  ap (λ a. if is_automatic env (host_of_peer peer) then a else peer.address)
      (chosen_host-v4 env (host_of_peer peer) h),
  refl,
  refl,
)
