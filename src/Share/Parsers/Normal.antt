-- ===== src/Share/Parsers/Normal.antt =====
-- What the normalisers leave in the outbounds that the parsers of VLESS and Trojan return.
use inhive_core.Prelude.{
  arith, String, true, false, List, [], ◌∷◌, Option, none, some, Outcome, ok, if_both, IfOk,
  IfOk->>=, IfOk-use, IfOk_true, fail, panic, ◌≡◌, refl, Bool-cases, inl, inr, same, if◌then◌else◌,
}
use inhive_core.Share.Library.{Library}
use inhive_core.Share.Query.{
  Params, get, is_one_of, normalize_packet_encoding, normalize_vless_flow,
}
use inhive_core.Share.Tls.Normal.{NormalTls, NormalMultiplex, tls_normal, mux_normal}
use inhive_core.Share.Tls.{Tls, asks_tls, get_tls_options}
use inhive_core.Share.Transport.{
  Transport, quic, get_transport_options, has_no_tls, default_alpn, plain_net,
}
use inhive_core.Share.Url.{UrlSchema, parse_url}
use inhive_core.Share.Parsers.{
  VlessOutbound, vless_singbox, vless_parsed, vless_outbound, packet_encoding_of, TrojanOutbound,
  trojan_singbox, trojan_parsed, trojan_outbound, has_encryption, has_flow, trojan_params,
}

-- QUIC comes with TLS. Nothing is asked of the other transports, nor of the TLS of XHTTP's download leg.
abbrev pub NormalTransport : Option Transport → Option Tls → Type 0
NormalTransport (some quic) none = ⊥
NormalTransport _ _ = Unit

abbrev pub IsPacketEncoding : String → Type 0
IsPacketEncoding s = is_one_of s ("" ∷ ("packetaddr" ∷ ("xudp" ∷ []))) ≡ true

packet_encoding_of-IsPacketEncoding :
    (l : Library) (d : Params) → IsPacketEncoding (packet_encoding_of l d)
unfolding packet_encoding_of normalize_packet_encoding
packet_encoding_of-IsPacketEncoding l d =
    let given = get d "packetencoding" in
    let word = l.to_lower (l.trim_space given) in
    elim (Bool-cases (same given "")) [
      | inl e ↦ rw (e) refl
      | inr e ↦ elim (Bool-cases (same word "packetaddr")) [
        | inl p ↦ rw (e, p) refl
        | inr p ↦ elim (Bool-cases (same word "xudp")) [
          | inl q ↦ rw (e, p, q) refl
          | inr q ↦ rw (e, p, q) refl
        ]
      ]
    ]

abbrev pub IsFlow : String → Type 0
IsFlow f = is_one_of f ("" ∷ ("xtls-rprx-vision" ∷ [])) ≡ true

normalize_vless_flow-IsFlow :
    (l : Library) (flow : String) → IfOk IsFlow (normalize_vless_flow l flow)
unfolding normalize_vless_flow
normalize_vless_flow-IsFlow l flow =
    let word = l.to_lower (l.trim_space flow) in
    let none : List String = "" ∷ ("none" ∷ []) in
    let vision : List String = "xtls-rprx-vision" ∷ ("xtls-rprx-vision-udp443" ∷ []) in
    elim (Bool-cases (is_one_of word none)) [
      | inl e ↦ rw (e) refl
      | inr e ↦ elim (Bool-cases (is_one_of word vision)) [
        | inl p ↦ rw (e, p) refl
        | inr p ↦ rw (e, p) (if_both (IfOk IsFlow) _ {x = fail _} {y = fail _} tt tt)
      ]
    ]

abbrev pub NormalLegs : Library → Option Transport × Params → Type 0
NormalLegs l t = NormalTransport t.0 (get_tls_options l t.1)

-- `IfOk` of it, as a family.
pub data OkNormal (l : Library) : Outcome (Option Transport × Params) → Type 0 where
  is_refused : (message : String) → OkNormal l (fail message)
  is_normal : (t : Option Transport × Params) → NormalLegs l t → OkNormal l (ok t)

pub OkNormal-IfOk :
    (l : Library) (o : Outcome (Option Transport × Params)) → OkNormal l o → IfOk (NormalLegs l) o
OkNormal-IfOk l (fail message) h = tt
OkNormal-IfOk l (ok t) (is_normal t' h) = h
OkNormal-IfOk l panic h = tt

has_tls : (d : Params) → has_no_tls d ≡ false → asks_tls d ≡ true
unfolding asks_tls
has_tls d h = ground (arith)

quic-NormalLegs : (l : Library) (d : Params) → has_no_tls d ≡ false → NormalLegs l (some quic, d)
unfolding get_tls_options
quic-NormalLegs l d h = rw (has_tls d h) tt

quic_normal :
    (l : Library) (d : Params) (message : String)
    → OkNormal l (if has_no_tls d then fail message else ok (some quic, d))
quic_normal l d message = elim (Bool-cases (has_no_tls d)) [
  | inl e ↦ rw (e) (is_refused message)
  | inr e ↦ rw (e) (is_normal (some quic, d) (quic-NormalLegs l d e))
]

pub transport_normal : (l : Library) (d : Params) → OkNormal l (get_transport_options l d)
unfolding get_transport_options
transport_normal l d =
    let P = OkNormal l in
    let net = plain_net d in
    if_both P (same net "tcp") (is_normal _ tt) (
      if_both P (same net "http") (is_normal _ tt) (
        if_both P (same net "httpupgrade") (is_normal _ tt) (
          if_both P (same net "ws") (is_normal _ tt) (
            if_both P (same net "grpc") (is_normal _ tt) (
              if_both P (same net "quic") (quic_normal l (default_alpn "h3" d) _) (
                if_both P (same net "xhttp") (is_normal _ tt) (
                  if_both P (same net "h3") (is_refused _) (
                    if_both P (is_one_of net ("kcp" ∷ ("mkcp" ∷ []))) (is_refused _)
                      (is_refused _)))))))))

-- A VLESS outbound has a flow and a packet encoding from the lists of sing-box beside it.
abbrev pub NormalVless : VlessOutbound → Type 0
NormalVless o =
    NormalTls o.tls
    × NormalTransport o.transport o.tls
    × NormalMultiplex o.multiplex
    × IsFlow o.flow
    × IsPacketEncoding o.packet_encoding

vless_parsed_normal : (l : Library) (u : UrlSchema) → IfOk NormalVless (vless_parsed l u)
unfolding vless_parsed vless_outbound
vless_parsed_normal l u =
    let P = IfOk NormalVless in
    let d = u.params in
    if_both P (has_encryption d) tt (
      IfOk->>= IsFlow NormalVless (normalize_vless_flow l (get d "flow")) _
        (normalize_vless_flow-IsFlow l (get d "flow"))
        (λ flow known.
          IfOk->>= (NormalLegs l) NormalVless (get_transport_options l d)
            (λ t. ok (vless_outbound l u flow t)) (OkNormal-IfOk l _ (transport_normal l d))
            (λ t h. (
              tls_normal l t.1,
              h,
              mux_normal l t.1,
              known,
              packet_encoding_of-IsPacketEncoding l t.1,
            ))))

abbrev pub NormalTrojan : TrojanOutbound → Type 0
NormalTrojan o = NormalTls o.tls × NormalTransport o.transport o.tls × NormalMultiplex o.multiplex

trojan_parsed_normal : (l : Library) (u : UrlSchema) → IfOk NormalTrojan (trojan_parsed l u)
unfolding trojan_parsed trojan_outbound
trojan_parsed_normal l u =
    let d = trojan_params u.params in
    if_both (IfOk NormalTrojan) (has_flow d) tt (
      IfOk->>= (NormalLegs l) NormalTrojan (get_transport_options l d)
        (λ t. ok (trojan_outbound l u t)) (OkNormal-IfOk l _ (transport_normal l d))
        (λ t h. (tls_normal l t.1, h, mux_normal l t.1)))

-- In the outbound that a VLESS link is parsed to, Reality in the outbound's own TLS part comes with uTLS
-- and a fingerprint, with a short id of at most sixteen hexadecimal digits and a public key without "+"
-- and "/"; the TLS versions, the multiplexing protocol, the flow and the packet encoding are from the lists of sing-box, or not set; and QUIC comes with TLS.
-- Nothing is said of the TLS of XHTTP's download leg.
pub vless_singbox-NormalVless :
    (l : Library) (vless_url : String) {o : VlessOutbound}
    → vless_singbox l vless_url ≡ ok o
    → NormalVless o
unfolding vless_singbox
vless_singbox-NormalVless l vless_url e =
    IfOk-use NormalVless
      (IfOk->>= (λ u. Unit {0}) NormalVless (parse_url l vless_url 443) (vless_parsed l)
        (IfOk_true (parse_url l vless_url 443)) (λ u h. vless_parsed_normal l u))
      e

-- In the outbound that a Trojan link is parsed to, Reality in the outbound's own TLS part comes with uTLS
-- and a fingerprint, with a short id of at most sixteen hexadecimal digits and a public key without "+"
-- and "/"; the TLS versions and the multiplexing protocol are from the lists of sing-box, or not set; and QUIC comes with TLS.
pub trojan_singbox-NormalTrojan :
    (l : Library) (trojan_url : String) {o : TrojanOutbound}
    → trojan_singbox l trojan_url ≡ ok o
    → NormalTrojan o
unfolding trojan_singbox
trojan_singbox-NormalTrojan l trojan_url e =
    IfOk-use NormalTrojan
      (IfOk->>= (λ u. Unit {0}) NormalTrojan (parse_url l trojan_url 443) (trojan_parsed l)
        (IfOk_true (parse_url l trojan_url 443)) (λ u h. trojan_parsed_normal l u))
      e
