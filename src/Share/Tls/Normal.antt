-- ===== src/Share/Tls/Normal.antt =====
-- What the normalisers of xray2sing/ray2sing/common.go leave in the TLS part and in the multiplexing.
use Prim.Native.String.{len}
use Prim.Native.Char.{Char, code}
use inhive_core.Prelude.{
  ℕ, ◌==◌, ◌≢◌, ◌&&◌, not, apart, ◌≤◌, arith, String, Bool, true, false, List, [], ◌∷◌, Option,
  none, some, ◌≡◌, refl, subst, sym, ◌∙◌, Bool-cases, inl, inr, same, ltb, if◌then◌else◌,
}
use inhive_core.Share.Library.{Library}
use inhive_core.Share.Lines.{trim_prefix}
use inhive_core.Share.Query.{
  Params, get, get_one_of_n, is_one_of, all_hex, replace_char, trim_padding,
  normalize_reality_public_key, normalize_reality_short_id, normalize_tls_version,
  normalize_mux_protocol,
}
use inhive_core.Share.Tls.{
  Tls, Reality, Multiplex, is_reality, asks_tls, fingerprint, base_tls, with_alpn, with_reality,
  get_tls_options, get_mux_options,
}

-- No character of the text has the code.
unfoldable pub lacks : ℕ → String → Bool
lacks n String.[] = true
lacks n (String.◌∷◌ c s) = not (code c == n) && lacks n s

abbrev pub IsShortId : String → Type 0
IsShortId s = (len s ≤ 16) × (all_hex s ≡ true)

-- Reality comes with uTLS and a fingerprint, its short id has at most sixteen characters, all of them
-- hexadecimal digits, and its public key has neither "+" nor "/".
abbrev pub NormalReality : Option Reality → Option String → Type 0
NormalReality none utls = Unit
NormalReality (some r) none = ⊥
NormalReality (some r) (some fp) =
    (fp ≢ "")
    × IsShortId r.short_id
    × (lacks 43 r.public_key ≡ true)
    × (lacks 47 r.public_key ≡ true)

abbrev pub IsVersion : String → Type 0
IsVersion v = is_one_of v ("" ∷ ("1.0" ∷ ("1.1" ∷ ("1.2" ∷ ("1.3" ∷ []))))) ≡ true

abbrev pub NormalTls : Option Tls → Type 0
NormalTls none = Unit
NormalTls (some t) =
    NormalReality t.reality t.utls × IsVersion t.min_version × IsVersion t.max_version

abbrev pub protocols : List String
protocols = "h2mux" ∷ ("smux" ∷ ("yamux" ∷ []))

abbrev pub NormalMultiplex : Option Multiplex → Type 0
NormalMultiplex none = Unit
NormalMultiplex (some m) = is_one_of m.protocol protocols ≡ true

is_one_of-more :
    (s t : String) (ts : List String) → is_one_of s ts ≡ true → is_one_of s (t ∷ ts) ≡ true
is_one_of-more s t ts h = ground (arith)

normalize_tls_version-IsVersion : (l : Library) (v : String) → IsVersion (normalize_tls_version l v)
unfolding normalize_tls_version
normalize_tls_version-IsVersion l v =
    let word = trim_prefix (trim_prefix (l.to_lower (l.trim_space v)) "tlsv") "tls" in
    let versions : List String = "1.0" ∷ ("1.1" ∷ ("1.2" ∷ ("1.3" ∷ []))) in
    elim (Bool-cases (is_one_of word versions)) [
      | inl e ↦ rw (e) (is_one_of-more word "" versions e)
      | inr e ↦ rw (e) refl
    ]

replace_char-lacks :
    (n : ℕ) (r : Char) (s : String) → (code r == n) ≡ false → lacks n (replace_char n r s) ≡ true
unfolding lacks replace_char
replace_char-lacks n r String.[] h = refl
replace_char-lacks n r (String.◌∷◌ c s) h =
    let rest = replace_char-lacks n r s h in
    elim (Bool-cases (code c == n)) [ inl e ↦ rw (e, h, rest) refl | inr e ↦ rw (e, e, rest) refl ]

replace_char-still_lacks :
    (m n : ℕ) (r : Char) (s : String)
    → (code r == m) ≡ false
    → lacks m s ≡ true
    → lacks m (replace_char n r s) ≡ true
unfolding lacks replace_char
replace_char-still_lacks m n r String.[] h k = refl
replace_char-still_lacks m n r (String.◌∷◌ c s) h k = elim (Bool-cases (code c == m)) [
  | inl e ↦ cc (rw (e) at k)
  | inr e ↦
      let rest = replace_char-still_lacks m n r s h (rw (e) at k) in
      elim (Bool-cases (code c == n)) [
        | inl e' ↦ rw (e', h, rest) refl
        | inr e' ↦ rw (e', e, rest) refl
      ]
]

public_key-lacks :
    (l : Library) (v : String)
    → (lacks 43 (normalize_reality_public_key l v) ≡ true)
      × (lacks 47 (normalize_reality_public_key l v) ≡ true)
unfolding normalize_reality_public_key
public_key-lacks l v =
    let key = trim_padding (l.trim_space v) in
    (
      replace_char-still_lacks 43 47 "_" (replace_char 43 "-" key) refl
          (replace_char-lacks 43 "-" key refl),
      replace_char-lacks 47 "_" (replace_char 43 "-" key) refl,
    )

normalize_reality_short_id-IsShortId :
    (l : Library) (v : String) → IsShortId (normalize_reality_short_id l v)
unfolding normalize_reality_short_id all_hex
normalize_reality_short_id-IsShortId l v =
    let sid = l.trim_space v in
    let nothing : IsShortId "" = (omega arith, refl) in
    elim (Bool-cases (ltb 16 (len sid))) [
      | inl long ↦ rw (long) nothing
      | inr short ↦ elim (Bool-cases (all_hex sid)) [
        | inl hex ↦ rw (short, hex) (ground arith, hex)
        | inr e ↦ rw (short, e) nothing
      ]
    ]

reality-fingerprint :
    (l : Library) (d : Params) → is_reality d ≡ true → same (fingerprint l d) "" ≡ false
unfolding fingerprint
reality-fingerprint l d h =
    let raw = l.to_lower (l.trim_space (get d "fp")) in
    let fp = if is_one_of raw ("none" ∷ ("unsafe" ∷ [])) then "" else raw in
    elim (Bool-cases (same fp "")) [ inl e ↦ rw (e, h) refl | inr e ↦ rw (e) e ]

if_one_of :
    (b : Bool) (x y : String) (ts : List String)
    → is_one_of x ts ≡ true
    → is_one_of y ts ≡ true
    → is_one_of (if b then x else y) ts ≡ true
if_one_of true x y ts h k = h
if_one_of false x y ts h k = k

mux_protocol_lem :
    (l : Library) (raw : String) → is_one_of (normalize_mux_protocol l raw) ("" ∷ protocols) ≡ true
unfolding normalize_mux_protocol
mux_protocol_lem l raw =
    let word = l.to_lower (l.trim_space raw) in
    let yamux = if same word "yamux" then "yamux" else "" in
    let smux = if same word "smux" then "smux" else yamux in
    let h2 = is_one_of word ("h2" ∷ ("h2mux" ∷ [])) in
    let off = is_one_of word ("" ∷ ("none" ∷ ("off" ∷ ("disabled" ∷ ("0" ∷ []))))) in
    let among = "" ∷ protocols in
    let y = if_one_of (same word "yamux") "yamux" "" among refl refl in
    let s = if_one_of (same word "smux") "smux" yamux among refl y in
    if_one_of off "" (if h2 then "h2mux" else smux) among refl
      (if_one_of h2 "h2mux" smux among refl s)

is_one_of-others :
    (s : String)
    → same s "" ≡ false
    → is_one_of s ("" ∷ protocols) ≡ true
    → is_one_of s protocols ≡ true
is_one_of-others s e h = ground arith

pub mux_normal : (l : Library) (d : Params) → NormalMultiplex (get_mux_options l d)
unfolding get_mux_options
mux_normal l d =
    let protocol = normalize_mux_protocol l (get d "muxtype") in
    elim (Bool-cases (same protocol "")) [
      | inl e ↦ rw (e) tt
      | inr e ↦ rw (e) (is_one_of-others protocol e (mux_protocol_lem l (get d "muxtype")))
    ]

-- Reality needs uTLS, and the base has a fingerprint with it; the ALPN does not take it away.
with_alpn-utls :
    (l : Library) (d : Params) (t : Tls) → is_reality d ≡ true → (with_alpn l d t).utls ≡ t.utls
unfolding with_alpn
with_alpn-utls l d t h = ground (arith, h)

with_alpn-rest :
    (l : Library) (d : Params) (t : Tls)
    → ((with_alpn l d t).reality ≡ t.reality)
      × ((with_alpn l d t).min_version ≡ t.min_version)
      × ((with_alpn l d t).max_version ≡ t.max_version)
unfolding with_alpn
with_alpn-rest l d t = ground (arith)

base-utls :
    (l : Library) (d : Params) → is_reality d ≡ true → (base_tls l d).utls ≡ some (fingerprint l d)
unfolding base_tls
base-utls l d h = rw (reality-fingerprint l d h) refl

reality_normal :
    (l : Library) (d : Params)
    → let t = with_reality l d (with_alpn l d (base_tls l d)) in NormalReality t.reality t.utls
unfolding with_reality base_tls
reality_normal l d =
    let t = base_tls l d in
    let key = public_key-lacks l (get d "pbk") in
    elim (Bool-cases (is_reality d)) [
      | inl e ↦
          rw (e, with_alpn-utls l d t e, base-utls l d e)
            (
              apart (fingerprint l d) "" (reality-fingerprint l d e),
              normalize_reality_short_id-IsShortId l (get d "sid"),
              key.0,
              key.1,
            )
      | inr e ↦ rw (e, (with_alpn-rest l d t).0) tt
    ]

with_reality-versions :
    (l : Library) (d : Params) (t : Tls)
    → ((with_reality l d t).min_version ≡ t.min_version)
      × ((with_reality l d t).max_version ≡ t.max_version)
unfolding with_reality
with_reality-versions l d t = ground (arith)

base-versions :
    (l : Library) (d : Params)
    → let t = base_tls l d in IsVersion t.min_version × IsVersion t.max_version
unfolding base_tls
base-versions l d = (
  normalize_tls_version-IsVersion l (get_one_of_n l d "" ("minversion" ∷ ("min_version" ∷ []))),
  normalize_tls_version-IsVersion l (get_one_of_n l d "" ("maxversion" ∷ ("max_version" ∷ []))),
)

pub tls_normal : (l : Library) (d : Params) → NormalTls (get_tls_options l d)
unfolding get_tls_options
tls_normal l d = elim (Bool-cases (asks_tls d)) [
  | inr e ↦ rw (e) tt
  | inl e ↦
      let t = base_tls l d in
      let u = with_alpn l d t in
      let same_versions = with_reality-versions l d u in
      let before = with_alpn-rest l d t in
      let versions = base-versions l d in
      rw (e) (
        reality_normal l d,
        subst IsVersion (sym (same_versions.0 ∙ before.1)) versions.0,
        subst IsVersion (sym (same_versions.1 ∙ before.2)) versions.1,
      )
]
