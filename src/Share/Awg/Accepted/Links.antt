-- ===== src/Share/Awg/Accepted/Links.antt =====
-- What `AWGSingbox` returns.
use Prim.Native.String.{String}
use inhive_core.Prelude.{
  true, false, ◌||◌, List, [], ◌∷◌, Option, none, some, Outcome, panic, ok, fail, same, ◌==◌, ◌≡◌,
  ◌≢◌, refl, ◌⊎◌, inl, inr, All, IfOk, IfOk->>=, IfOk-use, IfOk-of, IfOk_true, if_both, if_case,
  apart,
}
use inhive_core.Share.Library.{Library, ℤ, pos, negsuc, Prefix}
use inhive_core.Share.Query.{Params, get?, get_one_of_n, is_positive}
use inhive_core.Share.Url.{UrlSchema, parse_url}
use inhive_core.Share.Awg.{
  Tunnel, Obfuscation, WgEndpoint, wireguard, awg, normalize_wg_key, validate_specs, is_plain,
}
use inhive_core.Share.Awg.Text.{awg_singbox_txt}
use inhive_core.Share.Awg.Link.{
  parse_prefixes, link_obfuscation, link_private_key, link_public_key, link_reserved, link_workers,
  positive_workers, link_endpoint, link_keyed, link_parsed, decoded_link, or_text, has_none,
  with_some, link_or_text, awg_singbox, tag_or, plain_mtu, get_wireguard_noise,
}
use inhive_core.Share.Awg.Accepted.Values.{
  IsKey, IsKeyOf, normalize_wg_key-IsKeyOf, normalize_wg_key-optional, IsReserved,
  parse_reserved_list-IsReserved, clamped-IsObfuscation, IsObfuscation, IsCount,
}
use inhive_core.Share.Awg.Accepted.Peers.{IsTunnel, IsAccepted}
use inhive_core.Share.Awg.Accepted.Texts.{
  or_all_traffic-set, both_false, not_zero, awg_singbox_txt-IsAccepted,
}

-- A key, or the empty text.
abbrev pub IsKeyOrEmpty : Library → String → Type 0
IsKeyOrEmpty l k = (k ≡ "") ⊎ IsKey l k

positive_workers-IsCount : (r : Option ℤ) → IsCount (positive_workers r)
positive_workers-IsCount none = (0, refl)
positive_workers-IsCount (some (pos n)) = if_both IsCount (is_positive (pos n)) (n, refl) (0, refl)
positive_workers-IsCount (some (negsuc n)) = (0, refl)

link_workers-IsCount : (l : Library) (r : Option String) → IsCount (link_workers l r)
link_workers-IsCount l none = (0, refl)
link_workers-IsCount l (some raw) = positive_workers-IsCount (l.atoi raw)

link_reserved-IsReserved : (l : Library) (r : Option String) → IfOk IsReserved (link_reserved l r)
link_reserved-IsReserved l none = inl refl
link_reserved-IsReserved l (some raw) = parse_reserved_list-IsReserved l raw

abbrev pub tunnel_of : WgEndpoint → Tunnel
tunnel_of (wireguard t noise workers) = t
tunnel_of (awg t o) = t

-- The endpoint of a link: the link has a private and a public key, and the keys of the endpoint are
-- theirs; a key of white space alone becomes the empty one.
abbrev pub HasKeys : Library → UrlSchema → Tunnel → Type 0
HasKeys l u t =
    IsKeyOf l (link_private_key l u) t.private_key
    × All (λ p. IsKeyOf l (link_public_key l u.params) p.public_key) t.peers

abbrev pub IsLinked : Library → UrlSchema → WgEndpoint → Type 0
IsLinked l u e =
    (link_private_key l u ≢ "")
    × (link_public_key l u.params ≢ "")
    × HasKeys l u (tunnel_of e)
    × IsAccepted (IsKeyOrEmpty l) l e

either_key : (l : Library) (val k : String) → IsKeyOf l val k → IsKeyOrEmpty l k
either_key l val k (inl blank) = inl blank.1
either_key l val k (inr key) = inr key

link_endpoint-IsLinked :
    (l : Library) (u : UrlSchema) (t : Tunnel) (o : Obfuscation)
    → link_private_key l u ≢ ""
    → link_public_key l u.params ≢ ""
    → HasKeys l u t
    → IsTunnel (IsKeyOrEmpty l) l t
    → IsObfuscation l o
    → IsLinked l u (link_endpoint l u t o)
unfolding link_endpoint
link_endpoint-IsLinked l u t o given given' keys h k =
    if_both (IsLinked l u) (is_plain o)
      {x = wireguard (record t { tag = tag_or u.name "WG"; mtu = plain_mtu l u.params })
        (get_wireguard_noise l u.params false) (link_workers l (get? u.params "workers"))}
      {y = awg (record t { tag = tag_or u.name "AWG" }) o}
      (given, given', keys, (h, link_workers-IsCount l (get? u.params "workers")))
      (given, given', keys, (h, k))

link_obfuscation-IsObfuscation :
    (l : Library) (d : Params)
    → IfOk
        (λ (v : Unit {0}). IsObfuscation l (link_obfuscation l d))
        (validate_specs l (link_obfuscation l d))
unfolding link_obfuscation
link_obfuscation-IsObfuscation l d =
    IfOk-of (λ (v : Unit {0}). IsObfuscation l (link_obfuscation l d))
      (validate_specs l (link_obfuscation l d)) (λ v e. clamped-IsObfuscation l _ e)

link_keyed-IsLinked :
    (l : Library) (u : UrlSchema) (addresses allowed : List Prefix)
    → link_private_key l u ≢ ""
    → link_public_key l u.params ≢ ""
    → u.hostname ≢ ""
    → u.port ≢ 0
    → IfOk (IsLinked l u) (link_keyed l u addresses allowed)
unfolding link_keyed
link_keyed-IsLinked l u addresses allowed given given' h p =
    let A = IsLinked l u in
    let own = link_private_key l u in
    let other = link_public_key l u.params in
    let psk = get_one_of_n l u.params "" ("presharedkey" ∷ ("psk" ∷ [])) in
    IfOk->>= (IsKeyOf l own) A (normalize_wg_key l "private_key" own) _
      (normalize_wg_key-IsKeyOf l "private_key" own)
      (λ pk k.
        IfOk->>= (IsKeyOf l other) A (normalize_wg_key l "peer_public_key" other) _
          (normalize_wg_key-IsKeyOf l "peer_public_key" other)
          (λ public k'.
            IfOk->>= (IsKeyOrEmpty l) A (normalize_wg_key l "preshared_key" psk) _
              (normalize_wg_key-optional l "preshared_key" psk)
              (λ preshared k''.
                IfOk->>= IsReserved A (link_reserved l (get? u.params "reserved")) _
                  (link_reserved-IsReserved l (get? u.params "reserved"))
                  (λ reserved r.
                    IfOk->>= (λ (v : Unit {0}). IsObfuscation l (link_obfuscation l u.params)) A
                      (validate_specs l (link_obfuscation l u.params)) _
                      (link_obfuscation-IsObfuscation l u.params)
                      (λ v o.
                        link_endpoint-IsLinked l u _ (link_obfuscation l u.params) given given'
                          (k, (k', tt))
                          (
                            either_key l own pk k,
                            (λ e. cc (e)),
                            (
                              (
                                h,
                                p,
                                either_key l other public k',
                                k'',
                                r,
                                or_all_traffic-set allowed,
                              ),
                              tt,
                            ),
                          )
                          o)))))

link_parsed-IsLinked : (l : Library) (u : UrlSchema) → IfOk (IsLinked l u) (link_parsed l u)
unfolding link_parsed
link_parsed-IsLinked l u =
    let A = IsLinked l u in
    let prefixes : List String → Outcome (List Prefix) =
      λ keys. parse_prefixes l (l.split (get_one_of_n l u.params "" keys) ",") in
    let own = prefixes ("ip" ∷ ("address" ∷ [])) in
    let other = prefixes ("localaddress" ∷ ("allowedips" ∷ [])) in
    let key = link_private_key l u in
    let key' = link_public_key l u.params in
    IfOk->>= (λ (ps : List Prefix). Unit {0}) A own _ (IfOk_true own)
      (λ addresses x.
        IfOk->>= (λ (ps : List Prefix). Unit {0}) A other _ (IfOk_true other)
          (λ allowed y.
            if_case (IfOk A) (same key "") (fail _) _ (λ e. tt)
              (λ given.
                if_case (IfOk A) (same key' "") (fail _) _ (λ e. tt)
                  (λ given'.
                    if_case (IfOk A) (same u.hostname "" || (u.port == 0)) (fail _)
                      (link_keyed l u addresses allowed) (λ e. tt)
                      (λ e.
                        let both = both_false (same u.hostname "") (u.port == 0) e in
                        link_keyed-IsLinked l u addresses allowed (apart key "" given)
                          (apart key' "" given') (apart u.hostname "" both.0)
                          (not_zero u.port both.1))))))

-- An endpoint is that of a text or of a link. What gave none was a link that can be parsed, has no
-- parameters, and is no text of wg-quick.
abbrev pub IsAnswer : Library → String → Option WgEndpoint → Type 0
IsAnswer l raw (some e) =
    ((awg_singbox_txt l (decoded_link l raw) ≡ ok e) × IsAccepted (IsKey l) l e)
    ⊎ ((u : UrlSchema) × (parse_url l (decoded_link l raw) 0 ≡ ok u) × IsLinked l u e)
IsAnswer l raw none =
    (u : UrlSchema) × (parse_url l (decoded_link l raw) 0 ≡ ok u)
    × (u.params ≡ [])
    × ((message : String) × (awg_singbox_txt l (decoded_link l raw) ≡ fail message))

has_none-empty : (d : Params) → has_none d ≡ true → d ≡ []
has_none-empty [] e = refl
has_none-empty (p ∷ ps) e = cc (e)

module _ (l : Library) (trims : (s : String) → l.trim_space (l.trim_space s) ≡ l.trim_space s) where
  or_text-IsAnswer :
      (raw : String) (other : Outcome (Option WgEndpoint)) (text : Outcome WgEndpoint)
      → awg_singbox_txt l (decoded_link l raw) ≡ text
      → ((message : String) → text ≡ fail message → IfOk (IsAnswer l raw) other)
      → IfOk (IsAnswer l raw) (or_text other text)
  or_text-IsAnswer raw other (ok e) h k =
      inl (h, awg_singbox_txt-IsAccepted l trims (decoded_link l raw) h)
  or_text-IsAnswer raw other (fail m) h k = k m refl
  or_text-IsAnswer raw other panic h k = tt

  with_some-IsAnswer :
      (raw : String) (u : UrlSchema) (parsed : Outcome WgEndpoint)
      → parse_url l (decoded_link l raw) 0 ≡ ok u
      → IfOk (IsLinked l u) parsed
      → IfOk (IsAnswer l raw) (with_some parsed)
  with_some-IsAnswer raw u (ok e) p h = inr (u, p, h)
  with_some-IsAnswer raw u (fail m) p h = tt
  with_some-IsAnswer raw u panic p h = tt

  link_or_text-IsAnswer :
      (raw : String) (parsed : Outcome UrlSchema)
      → parse_url l (decoded_link l raw) 0 ≡ parsed
      → IfOk (IsAnswer l raw) (link_or_text l (decoded_link l raw) parsed)
  link_or_text-IsAnswer raw (ok u) h =
      let text = awg_singbox_txt l (decoded_link l raw) in
      if_case (IfOk (IsAnswer l raw)) (has_none u.params) (or_text (ok none) text)
        (with_some (link_parsed l u))
        (λ e.
          or_text-IsAnswer raw (ok none) text refl
            (λ m k. (u, h, has_none-empty u.params e, (m, k))))
        (λ e. with_some-IsAnswer raw u (link_parsed l u) h (link_parsed-IsLinked l u))
  link_or_text-IsAnswer raw (fail m) h =
      or_text-IsAnswer raw (fail m) (awg_singbox_txt l (decoded_link l raw)) refl (λ m' k. tt)
  link_or_text-IsAnswer raw panic h = tt

  -- If the trimming of a text is idempotent, then an endpoint that is returned is that of a text of
  -- wg-quick, with keys of 32 bytes, or of a link that has a private key and a public key. The keys of a
  -- link's endpoint are the link's with 32 bytes, or empty where the link's are white space. Either
  -- endpoint has a peer, each peer an address, a port other than 0, none or three reserved bytes and some
  -- traffic, and the settings of AmneziaWG are numbers that are not negative, headers, and chains of
  -- tags. Neither an endpoint nor an error comes only of a link that can be parsed, has no parameters,
  -- and is no text of wg-quick.
  pub awg_singbox-IsAnswer :
      (raw : String) {r : Option WgEndpoint} → awg_singbox l raw ≡ ok r → IsAnswer l raw r
  unfolding awg_singbox
  awg_singbox-IsAnswer raw h =
      IfOk-use (IsAnswer l raw)
        (link_or_text-IsAnswer raw (parse_url l (decoded_link l raw) 0) refl) h
