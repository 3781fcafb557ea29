-- ===== src/Share/Awg/Accepted/Trimmed.antt =====
-- The keys that the loop of `AWGSingboxTxt` stores are trimmed.
use Prim.Native.String.{String}
use inhive_core.Prelude.{
  ℕ, true, false, ◌||◌, List, [], ◌∷◌, ◌++◌, Option, none, some, ok, same, has_prefix, ◌≡◌, refl,
  ◌⊎◌, inl, inr, All, All-append, IfOk, IfOk->>=, IfOk_true, if_both, Option-cases,
}
use inhive_core.Share.Library.{Library, ℤ}
use inhive_core.Share.Query.{wrapped_16}
use inhive_core.Share.Url.{split_in_two}
use inhive_core.Share.Awg.{Peer, reserved_bytes}
use inhive_core.Share.Awg.Text.{
  WgState, flush_peer, no_peer, interface_line, peer_line, with_reserved, with_port, with_host_port,
  all_prefixes, set_parts, without_comment, key_line, canonical_wg_key, pair_line, text_line,
  text_lines, is_header, set_obfuscation, or_zero,
}

module _ (l : Library) (trims : (s : String) → l.trim_space (l.trim_space s) ≡ l.trim_space s) where
  abbrev pub IsTrimmed : String → Type 0
  IsTrimmed k = (k ≡ "") ⊎ (l.trim_space k ≡ k)

  abbrev pub IsTrimmedPeer : Peer → Type 0
  IsTrimmedPeer p = IsTrimmed p.public_key

  abbrev pub HasTrimmed : WgState → Type 0
  HasTrimmed s = IsTrimmed s.private_key × IsTrimmedPeer s.peer × All IsTrimmedPeer s.peers

  pub flush_peer-HasTrimmed : (s : WgState) → HasTrimmed s → HasTrimmed (flush_peer s)
  unfolding flush_peer
  flush_peer-HasTrimmed s h =
      if_both HasTrimmed s.have_peer
        {x = record s { peers = s.peers ++ (s.peer ∷ []); peer = no_peer; have_peer = false }}
        {y = s} (h.0, inl refl, All-append IsTrimmedPeer s.peers (s.peer ∷ []) h.2 (h.1, tt)) h

  interface_line-HasTrimmed :
      (key val : String) (s : WgState)
      → IsTrimmed val
      → HasTrimmed s
      → IfOk HasTrimmed (interface_line l key val s)
  unfolding interface_line
  interface_line-HasTrimmed key val s v h =
      if_both (IfOk HasTrimmed) (same key "PrivateKey") {x = ok (record s { private_key = val })}
        (v, h.1, h.2)
        (if_both (IfOk HasTrimmed) (same key "Address")
          (IfOk->>= (λ ps. Unit {0}) HasTrimmed (all_prefixes l (l.split val ","))
            (λ more. ok (record s { addresses = s.addresses ++ more }))
            (IfOk_true (all_prefixes l (l.split val ","))) (λ more u. h))
          (if_both (IfOk HasTrimmed) (same key "MTU")
            {x = ok (record s { mtu = or_zero (l.parse_uint 32 val) s.mtu })}
            {y = ok (record s { obfuscation = set_obfuscation l key val s.obfuscation })} h h))

  with_reserved-IsTrimmedPeer :
      (p : Peer) (r : Option (List ℕ)) → IsTrimmedPeer p → IfOk IsTrimmedPeer (with_reserved p r)
  with_reserved-IsTrimmedPeer p none h = tt
  with_reserved-IsTrimmedPeer p (some bytes) h = h

  with_port-IsTrimmedPeer :
      (p : Peer) (host : String) (r : Option ℤ)
      → IsTrimmedPeer p
      → IfOk IsTrimmedPeer (with_port p host r)
  with_port-IsTrimmedPeer p host none h = tt
  with_port-IsTrimmedPeer p host (some port) h = h

  with_host_port-IsTrimmedPeer :
      (p : Peer) (r : Option (String × String))
      → IsTrimmedPeer p
      → IfOk IsTrimmedPeer (with_host_port l p r)
  with_host_port-IsTrimmedPeer p none h = tt
  with_host_port-IsTrimmedPeer p (some (host, port)) h =
      with_port-IsTrimmedPeer p host (l.atoi port) h

  peer_line-IsTrimmedPeer :
      (key val : String) (p : Peer)
      → IsTrimmed val
      → IsTrimmedPeer p
      → IfOk IsTrimmedPeer (peer_line l key val p)
  unfolding peer_line
  peer_line-IsTrimmedPeer key val p v h =
      let P = IfOk IsTrimmedPeer in
      if_both P (same key "PublicKey") {x = ok (record p { public_key = val })} v (
        if_both P (same key "PresharedKey") {x = ok (record p { preshared_key = val })} h (
          if_both P (same key "Reserved")
            (with_reserved-IsTrimmedPeer p (reserved_bytes l (l.split val ",")) h)
            (if_both P (same key "AllowedIPs")
              (IfOk->>= (λ ps. Unit {0}) IsTrimmedPeer
                (all_prefixes l (set_parts l (l.split val ",")))
                (λ more. ok (record p { allowed_ips = p.allowed_ips ++ more }))
                (IfOk_true (all_prefixes l (set_parts l (l.split val ",")))) (λ more u. h))
              (if_both P (same key "Endpoint")
                (with_host_port-IsTrimmedPeer p (l.split_host_port val) h)
                (if_both P (same key "PersistentKeepalive")
                  {x = ok (record p { keepalive = wrapped_16 (l.atoi_value val) })} {y = ok p} h
                  h)))))

  key_line-HasTrimmed :
      (key val : String) (s : WgState)
      → IsTrimmed val
      → HasTrimmed s
      → IfOk HasTrimmed (key_line l key val s)
  unfolding key_line
  key_line-HasTrimmed key val s v h =
      let k = canonical_wg_key l key in
      if_both (IfOk HasTrimmed) (same s.section "interface") (interface_line-HasTrimmed k val s v h)
        (if_both (IfOk HasTrimmed) (same s.section "peer") {y = ok s}
          (IfOk->>= IsTrimmedPeer HasTrimmed (peer_line l k val s.peer)
            (λ p. ok (record s { peer = p; have_peer = true }))
            (peer_line-IsTrimmedPeer k val s.peer v h.1) (λ p t. (h.0, t, h.2)))
          h)

  without_comment-IsTrimmed : (s : String) → IsTrimmed (without_comment l (l.trim_space s))
  unfolding without_comment
  without_comment-IsTrimmed s = elim (Option-cases (split_in_two (l.trim_space s) "#")) [
    | inl e ↦ rw (e, without_comment) (inr (trims s))
    | inr (parts, e) ↦ rw (e, without_comment) (inr (trims parts.0))
  ]

  pair_line-HasTrimmed :
      (s : WgState) (parts : Option (String × String))
      → HasTrimmed s
      → IfOk HasTrimmed (pair_line l s parts)
  pair_line-HasTrimmed s none h = h
  pair_line-HasTrimmed s (some (key, val)) h =
      key_line-HasTrimmed (l.trim_space key) (without_comment l (l.trim_space val)) s
        (without_comment-IsTrimmed val) h

  text_line-HasTrimmed :
      (raw : String) (s : WgState) → HasTrimmed s → IfOk HasTrimmed (text_line l raw s)
  unfolding text_line
  text_line-HasTrimmed raw s h =
      let line = l.trim_space raw in
      if_both (IfOk HasTrimmed) (same line "" || (has_prefix line "#" || has_prefix line ";"))
        {x = ok s} h
        (if_both (IfOk HasTrimmed) (is_header line) (flush_peer-HasTrimmed s h)
          (pair_line-HasTrimmed s (split_in_two line "=") h))

  pub text_lines-HasTrimmed :
      (lines : List String) (s : WgState) → HasTrimmed s → IfOk HasTrimmed (text_lines l lines s)
  unfolding text_lines
  text_lines-HasTrimmed [] s h = h
  text_lines-HasTrimmed (raw ∷ more) s h =
      IfOk->>= HasTrimmed HasTrimmed (text_line l raw s) (text_lines l more)
        (text_line-HasTrimmed raw s h) (λ s' h'. text_lines-HasTrimmed more s' h')
