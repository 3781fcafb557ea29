-- ===== src/Share/Vmess/Normal.antt =====
-- What the normalisers leave in the outbounds that the parser of VMess links returns.
use inhive_core.Prelude.{
  String, Bool, true, false, Option, none, some, ok, IfOk, IfOk->>=, IfOk_true, IfOk-use, if_both,
  same, subst, sym, ◌&&◌, ◌≡◌, refl, if◌then◌else◌,
}
use inhive_core.Share.Library.{Library}
use inhive_core.Share.Query.{Params, get?, get, normalize_packet_encoding}
use inhive_core.Share.Tls.{Tls, asks_tls, base_tls, with_alpn, with_reality, get_tls_options}
use inhive_core.Share.Tls.Normal.{NormalTls, NormalMultiplex, tls_normal, mux_normal}
use inhive_core.Share.Transport.{
  Transport, http, http_upgrade, ws, grpc, quic, xhttp, get_transport_options,
}
use inhive_core.Share.Parsers.Normal.{
  NormalTransport, IsPacketEncoding, NormalLegs, OkNormal-IfOk, transport_normal,
}
use inhive_core.Share.Vmess.{
  VmessLibrary, VmessOutbound, normalize_vmess_security, with_fingerprint, vmess_outbound,
  vmess_decoded, decode_vmess, vmess_singbox,
}

-- The ciphers that sing-vmess knows.
pub data IsSecurity : String → Type 0 where
  auto : IsSecurity "auto"
  no_cipher : IsSecurity "none"
  zero_cipher : IsSecurity "zero"
  aes_128_cfb : IsSecurity "aes-128-cfb"
  aes_128_gcm : IsSecurity "aes-128-gcm"
  chacha20_poly1305 : IsSecurity "chacha20-poly1305"

normalize_vmess_security-IsSecurity :
    (l : Library) (scy : String) → IsSecurity (normalize_vmess_security l scy)
unfolding normalize_vmess_security
normalize_vmess_security-IsSecurity l scy =
    let P = IsSecurity in
    if_both P _ auto (
      if_both P _ no_cipher (
        if_both P _ zero_cipher
          (if_both P _ aes_128_cfb (if_both P _ aes_128_gcm (if_both P _ chacha20_poly1305 auto)))))

normalize_packet_encoding-IsPacketEncoding :
    (l : Library) (v : String) → IsPacketEncoding (normalize_packet_encoding l v)
unfolding normalize_packet_encoding
normalize_packet_encoding-IsPacketEncoding l v =
    let word = l.to_lower (l.trim_space v) in
    if_both IsPacketEncoding (same word "packetaddr") {x = "packetaddr"} refl
      (if_both IsPacketEncoding (same word "xudp") {x = "xudp"} {y = ""} refl refl)

-- A fingerprint does not decide whether there is TLS.
with_fingerprint-asks : (d : Params) → asks_tls (with_fingerprint d) ≡ asks_tls d
unfolding asks_tls get?
with_fingerprint-asks d =
    if_both (λ x. asks_tls x ≡ asks_tls d) (same (get d "tls") "tls" && same (get d "fp") "") refl
      refl

-- What a transport asks of TLS is whether there is any.
any_tls :
    (t : Option Transport) (asks : Bool) (x y : Tls)
    → NormalTransport t (if asks then some x else none)
    → NormalTransport t (if asks then some y else none)
any_tls none asks x y h = tt
any_tls (some (http o)) asks x y h = tt
any_tls (some (http_upgrade o)) asks x y h = tt
any_tls (some (ws o)) asks x y h = tt
any_tls (some (grpc o)) asks x y h = tt
any_tls (some quic) true x y h = tt
any_tls (some quic) false x y h = h
any_tls (some (xhttp o)) asks x y h = tt

fingerprint_normal :
    (l : Library) (t : Option Transport) (d : Params)
    → NormalTransport t (get_tls_options l d)
    → NormalTransport t (get_tls_options l (with_fingerprint d))
unfolding get_tls_options
fingerprint_normal l t d h =
    let printed = with_fingerprint d in
    let x = with_reality l printed (with_alpn l printed (base_tls l printed)) in
    subst (λ asks. NormalTransport t (if asks then some x else none))
      (sym (with_fingerprint-asks d)) (any_tls t (asks_tls d) _ x h)

-- A VMess outbound has a cipher and a packet encoding from the lists of sing-box beside it.
abbrev pub NormalVmess : VmessOutbound → Type 0
NormalVmess o =
    NormalTls o.tls
    × NormalTransport o.transport o.tls
    × NormalMultiplex o.multiplex
    × IsSecurity o.security
    × IsPacketEncoding o.packet_encoding

vmess_decoded_normal : (l : Library) (decoded : Params) → IfOk NormalVmess (vmess_decoded l decoded)
unfolding vmess_decoded vmess_outbound
vmess_decoded_normal l decoded =
    IfOk->>= (NormalLegs l) NormalVmess (get_transport_options l decoded) _
      (OkNormal-IfOk l _ (transport_normal l decoded))
      (λ t h.
        let printed = with_fingerprint t.1 in
        (
          tls_normal l printed,
          fingerprint_normal l t.0 t.1 h,
          mux_normal l printed,
          normalize_vmess_security-IsSecurity l (get t.1 "scy"),
          normalize_packet_encoding-IsPacketEncoding l (get t.1 "packetEncoding"),
        ))

-- In the outbound that a VMess link of either form is parsed to, Reality in the outbound's own TLS part
-- comes with uTLS and a fingerprint, with a short id of at most sixteen hexadecimal digits and a public
-- key without "+" and "/"; the cipher is one of the six of sing-vmess; the TLS versions, the multiplexing
-- protocol and the packet encoding are from the lists of sing-box, or not set; and QUIC comes with TLS.
-- Nothing is said of the TLS of XHTTP's download leg.
pub vmess_singbox-NormalVmess :
    (v : VmessLibrary) (vmess_url : String) {o : VmessOutbound}
    → vmess_singbox v vmess_url ≡ ok o
    → NormalVmess o
unfolding vmess_singbox
vmess_singbox-NormalVmess v vmess_url e =
    IfOk-use NormalVmess
      (IfOk->>= (λ d. Unit {0}) NormalVmess (decode_vmess v vmess_url) (vmess_decoded v.library)
        (IfOk_true (decode_vmess v vmess_url)) (λ d h. vmess_decoded_normal v.library d))
      e
