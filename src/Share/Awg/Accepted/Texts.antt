-- ===== src/Share/Awg/Accepted/Texts.antt =====
-- What the checks of `AWGSingboxTxt` leave in the endpoints that it returns.
use Prim.Native.String.{String}
use inhive_core.Prelude.{
  ℕ, Bool, true, false, ◌||◌, List, [], ◌∷◌, ok, fail, same, ◌==◌, ◌≡◌, ◌≢◌, refl, sym, ◌∙◌, ◌⊎◌,
  inl, inr, arith, zero, suc, All, IfOk, IfOk->>=, IfOk-use, IfOk-of, if_both, if_case, apart,
}
use inhive_core.Share.Library.{Library, pos, Prefix}
use inhive_core.Share.Awg.{
  Peer, WgEndpoint, wireguard, awg, normalize_wg_key, is_reserved, clamped, validate_specs,
  is_plain,
}
use inhive_core.Share.Awg.Text.{
  WgState, flush_peer, initial, checked_peer, checked_peers, some_peers, or_all_traffic, text_lines,
  text_endpoint, awg_singbox_txt, no_noise, wg_tunnel,
}
use inhive_core.Share.Awg.Accepted.Values.{
  IsKey, IsKeyOf, normalize_wg_key-IsKeyOf, normalize_wg_key-optional, is_reserved-IsReserved,
  clamped-IsObfuscation,
}
use inhive_core.Share.Awg.Accepted.Peers.{IsPeer, IsAccepted}
use inhive_core.Share.Awg.Accepted.Trimmed.{
  IsTrimmed, IsTrimmedPeer, HasTrimmed, flush_peer-HasTrimmed, text_lines-HasTrimmed,
}

pub or_all_traffic-set : (ps : List Prefix) → or_all_traffic ps ≢ []
or_all_traffic-set [] e = cc (e)
or_all_traffic-set (p ∷ ps) e = cc (e)

pub both_false : (a b : Bool) → (a || b) ≡ false → (a ≡ false) × (b ≡ false)
both_false false b e = (refl, e)
both_false true b e = cc (e)

pub not_zero : (n : ℕ) → (n == 0) ≡ false → n ≢ 0
not_zero zero e z = cc (e)
not_zero (suc n) e z = omega (arith, z)

module _ (l : Library) (trims : (s : String) → l.trim_space (l.trim_space s) ≡ l.trim_space s) where
  -- A key that is trimmed and not empty comes out as a key.
  normalize_wg_key-IsKey :
      (name val : String)
      → IsTrimmed l trims val
      → val ≢ ""
      → IfOk (IsKey l) (normalize_wg_key l name val)
  normalize_wg_key-IsKey name val t h = IfOk-of (IsKey l) (normalize_wg_key l name val) (λ k e.
      elim (IfOk-use (IsKeyOf l val) (normalize_wg_key-IsKeyOf l name val) e) [
        | inr key ↦ key
        | inl blank ↦ elim t [
          | inl empty ↦ absurd (h empty)
          | inr same_text ↦ absurd (h (sym same_text ∙ blank.0))
        ]
      ])

  checked_peer-IsPeer :
      (p : Peer) → IsTrimmedPeer l trims p → IfOk (IsPeer (IsKey l) l) (checked_peer l p)
  unfolding checked_peer
  checked_peer-IsPeer p t =
      let P = IfOk (IsPeer (IsKey l) l) in
      if_case P (same p.address "" || (p.port == 0)) (fail _) _ (λ e. tt)
        (λ e.
          if_case P (same p.public_key "") (fail _) _ (λ f. tt)
            (λ f.
              IfOk->>= (IsKey l) (IsPeer (IsKey l) l) (normalize_wg_key l "PublicKey" p.public_key)
                _ (normalize_wg_key-IsKey "PublicKey" p.public_key t (apart p.public_key "" f))
                (λ public k.
                  IfOk->>= (λ (s : String). (s ≡ "") ⊎ IsKey l s) (IsPeer (IsKey l) l)
                    (normalize_wg_key l "PresharedKey" p.preshared_key) _
                    (normalize_wg_key-optional l "PresharedKey" p.preshared_key)
                    (λ preshared s.
                      if_case P (is_reserved p.reserved)
                        (ok (record p {
                          public_key = public;
                          preshared_key = preshared;
                          allowed_ips = or_all_traffic p.allowed_ips;
                        }))
                        (fail _)
                        (λ r. (
                          apart p.address "" (both_false (same p.address "") (p.port == 0) e).0,
                          not_zero p.port (both_false (same p.address "") (p.port == 0) e).1,
                          k,
                          s,
                          is_reserved-IsReserved p.reserved r,
                          or_all_traffic-set p.allowed_ips,
                        ))
                        (λ r. tt)))))

  -- A list of peers, as long as the list of those checked.
  checked_peers-All :
      (ps : List Peer)
      → All (IsTrimmedPeer l trims) ps
      → IfOk
          (λ (qs : List Peer). All (IsPeer (IsKey l) l) qs × (ps ≢ [] → qs ≢ []))
          (checked_peers l ps)
  unfolding checked_peers
  checked_peers-All [] h = (tt, λ n e. n refl)
  checked_peers-All (p ∷ ps) h =
      let Q : List Peer → List Peer → Type 0 =
        λ rs qs. All (IsPeer (IsKey l) l) qs × (rs ≢ [] → qs ≢ []) in
      IfOk->>= (IsPeer (IsKey l) l) (Q (p ∷ ps)) (checked_peer l p) _ (checked_peer-IsPeer p h.0)
        (λ q k.
          IfOk->>= (Q ps) (Q (p ∷ ps)) (checked_peers l ps) (λ qs. ok (q ∷ qs))
            (checked_peers-All ps h.1) (λ qs m. ((k, m.0), λ n e. cc (e))))

  some_peers-set : (ps : List Peer) → IfOk (λ (u : Unit {0}). ps ≢ []) (some_peers ps)
  some_peers-set [] = tt
  some_peers-set (p ∷ ps) = λ e. cc (e)

  text_endpoint-IsAccepted :
      (s : WgState) → HasTrimmed l trims s → IfOk (IsAccepted (IsKey l) l) (text_endpoint l s)
  unfolding text_endpoint
  text_endpoint-IsAccepted s h =
      let A = IsAccepted (IsKey l) l in
      let o = clamped s.obfuscation in
      if_case (IfOk A) (same s.private_key "") (fail _) _ (λ e. tt)
        (λ e.
          IfOk->>= (IsKey l) A (normalize_wg_key l "PrivateKey" s.private_key) _
            (normalize_wg_key-IsKey "PrivateKey" s.private_key h.0 (apart s.private_key "" e))
            (λ private k.
              IfOk->>= (λ (u : Unit {0}). s.peers ≢ []) A (some_peers s.peers) _
                (some_peers-set s.peers)
                (λ u n.
                  IfOk->>=
                    (λ (qs : List Peer). All (IsPeer (IsKey l) l) qs × (s.peers ≢ [] → qs ≢ [])) A
                    (checked_peers l s.peers) _ (checked_peers-All s.peers h.2)
                    (λ peers m.
                      IfOk->>= (λ (v : Unit {0}). validate_specs l o ≡ ok tt) A (validate_specs l o)
                        _
                        (IfOk-of (λ (v : Unit {0}). validate_specs l o ≡ ok tt) (validate_specs l o)
                          (λ v x. x))
                        (λ v x.
                          if_both A (is_plain o)
                            {x = wireguard (wg_tunnel "wireguard" private s peers) no_noise (pos 0)}
                            {y = awg (wg_tunnel "awg" private s peers) o}
                            ((k, m.1 n, m.0), (0, refl))
                            ((k, m.1 n, m.0), clamped-IsObfuscation l s.obfuscation x))))))

  -- A text of wg-quick that is read gives an endpoint with a key of 32 bytes, and with one peer or more,
  -- each with an address, a port other than 0, a key of 32 bytes, none or three reserved bytes, and some
  -- traffic. The settings of AmneziaWG are numbers that are not negative, headers that are numbers or
  -- ranges in order, and chains of tags that the runtime has. The trimming of a text is idempotent.
  pub awg_singbox_txt-IsAccepted :
      (content : String) {e : WgEndpoint}
      → awg_singbox_txt l content ≡ ok e
      → IsAccepted (IsKey l) l e
  unfolding awg_singbox_txt
  awg_singbox_txt-IsAccepted content h =
      IfOk-use (IsAccepted (IsKey l) l)
        (IfOk->>= (HasTrimmed l trims) (IsAccepted (IsKey l) l)
          (text_lines l (l.split content "\n") initial) _
          (text_lines-HasTrimmed l trims (l.split content "\n") initial (inl refl, inl refl, tt))
          (λ s t. text_endpoint-IsAccepted (flush_peer s) (flush_peer-HasTrimmed l trims s t)))
        h
