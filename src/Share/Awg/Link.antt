-- ===== src/Share/Awg/Link.antt =====
-- `AWGSingbox` of xray2sing/ray2sing/awg.go, a link, and `getWireGuardNoise` of wireguard.go.
use Prim.Native.String.{String}
use inhive_core.Prelude.{
  ℕ, Bool, true, false, ◌&&◌, ◌||◌, List, [], ◌∷◌, Option, none, some, Outcome, panic, ok, fail,
  ◌>>=◌, same, join, if◌then◌else◌, ◌==◌,
}
use inhive_core.Share.Library.{Library, ℤ, pos, negsuc, Prefix}
use inhive_core.Share.Lines.{decode_base64_if_needed}
use inhive_core.Share.Query.{Params, get, get?, get_one_of_n, wrapped_16, is_positive}
use inhive_core.Share.Url.{UrlSchema, parse_url, split_in_two}
use inhive_core.Share.Awg.{
  Obfuscation, Noise, Tunnel, WgEndpoint, wireguard, awg, parse_addr_or_prefix, parse_reserved_list,
  normalize_wg_key, clamped, validate_specs, is_plain,
}
use inhive_core.Share.Awg.Text.{no_noise, or_all_traffic, or_zero, awg_singbox_txt}

abbrev pub is_zero : ℤ → Bool
is_zero (pos n) = n == 0
is_zero (negsuc n) = false

abbrev pub default_noise : Library → Noise
default_noise l = record {
  enabled = true;
  count = l.range_of "2-10";
  size = l.range_of "30-50";
  delay = l.range_of "30-50";
  mode = "m4";
}

abbrev pub noise_mode : Params → String
noise_mode d = if same (get d "wnoise") "quic" then "m4" else get d "ifpm"

unfoldable pub get_wireguard_noise : Library → Params → Bool → Noise
get_wireguard_noise l d add_default =
    let count = l.range_of (get_one_of_n l d "" ("ifp" ∷ ("wnoisecount" ∷ []))) in
    let delay = l.range_of (get_one_of_n l d "" ("ifpd" ∷ ("wnoisedelay" ∷ []))) in
    let size = l.range_of (get_one_of_n l d "" ("ifps" ∷ ("wpayloadsize" ∷ []))) in
    if is_zero count.to && (is_zero delay.to && (is_zero size.to && same (noise_mode d) ""))
    then (if add_default then default_noise l else no_noise)
    else record { enabled = true; count = count; size = size; delay = delay; mode = noise_mode d }

abbrev pub value_or_zero : Library → Option String → ℤ
value_or_zero l none = pos 0
value_or_zero l (some v) = l.atoi_value v

unfoldable pub get_int : Library → Params → String → ℤ
get_int l d key = value_or_zero l (get? d key)

unfoldable pub get_uint16_of_n : Library → Params → List String → ℕ
get_uint16_of_n l d [] = 0
get_uint16_of_n l d (key ∷ keys) = elim (get? d key) [
  | none ↦ get_uint16_of_n l d keys
  | some v ↦ wrapped_16 (l.atoi_value v)
]

unfoldable pub parse_prefixes : Library → List String → Outcome (List Prefix)
parse_prefixes l [] = ok []
parse_prefixes l (s ∷ more) =
    let rest = parse_prefixes l more in
    if same s ""
    then rest
    else (do p ← parse_addr_or_prefix l (l.trim_space s); ps ← rest; ok (p ∷ ps))

unfoldable pub link_obfuscation : Library → Params → Obfuscation
link_obfuscation l d =
    let text : String → String = λ k. get_one_of_n l d "" (k ∷ []) in
    clamped (record {
      jc = get_int l d "jc";
      jmin = get_int l d "jmin";
      jmax = get_int l d "jmax";
      s1 = get_int l d "s1";
      s2 = get_int l d "s2";
      s3 = get_int l d "s3";
      s4 = get_int l d "s4";
      itime = get_int l d "itime";
      h1 = text "h1";
      h2 = text "h2";
      h3 = text "h3";
      h4 = text "h4";
      i1 = text "i1";
      i2 = text "i2";
      i3 = text "i3";
      i4 = text "i4";
      i5 = text "i5";
      j1 = text "j1";
      j2 = text "j2";
      j3 = text "j3";
    })

-- The private key up to an "@".
abbrev pub before_at : String → Option (String × String) → String
before_at pk none = pk
before_at pk (some parts) = parts.0

unfoldable pub link_private_key : Library → UrlSchema → String
link_private_key l u =
    let pk = get_one_of_n l u.params "" ("privatekey" ∷ ("pk" ∷ [])) in
    let pk' = if same pk "" then u.username else pk in before_at pk' (split_in_two pk' "@")

unfoldable pub link_public_key : Library → Params → String
link_public_key l d =
    get_one_of_n l d "" ("peerpublickey" ∷ ("publickey" ∷ ("pub" ∷ ("peerpub" ∷ []))))

abbrev pub link_reserved : Library → Option String → Outcome (List ℕ)
link_reserved l none = ok []
link_reserved l (some raw) = parse_reserved_list l raw

abbrev pub link_mtu : Library → Option String → ℕ
link_mtu l none = 0
link_mtu l (some raw) = or_zero (l.parse_uint 32 raw) 0

-- A positive number of workers, or the default.
abbrev pub positive_workers : Option ℤ → ℤ
positive_workers none = pos 0
positive_workers (some n) = if is_positive n then n else pos 0

abbrev pub link_workers : Library → Option String → ℤ
link_workers l none = pos 0
link_workers l (some raw) = positive_workers (l.atoi raw)

abbrev pub plain_mtu : Library → Params → ℕ
plain_mtu l d =
    let raw = get_one_of_n l d "" ("mtu" ∷ []) in
    if same raw "" then 0 else or_zero (l.parse_uint 32 raw) 0

abbrev pub tag_or : String → String → String
tag_or name other = if same name "" then other else name

unfoldable pub link_endpoint : Library → UrlSchema → Tunnel → Obfuscation → WgEndpoint
link_endpoint l u t o =
    if is_plain o
    then wireguard (record t { tag = tag_or u.name "WG"; mtu = plain_mtu l u.params })
        (get_wireguard_noise l u.params false) (link_workers l (get? u.params "workers"))
    else awg (record t { tag = tag_or u.name "AWG" }) o

-- The keys of a link that has a private key, a public key and an address.
unfoldable pub link_keyed : Library → UrlSchema → List Prefix → List Prefix → Outcome WgEndpoint
link_keyed l u addresses allowed = do
  pk ← normalize_wg_key l "private_key" (link_private_key l u)
  public ← normalize_wg_key l "peer_public_key" (link_public_key l u.params)
  preshared ←
      normalize_wg_key l "preshared_key"
        (get_one_of_n l u.params "" ("presharedkey" ∷ ("psk" ∷ [])))
  reserved ← link_reserved l (get? u.params "reserved")
  let o = link_obfuscation l u.params
  v ← validate_specs l o
  ok (
      link_endpoint l u
        (record {
          tag = "";
          private_key = pk;
          addresses = addresses;
          mtu = link_mtu l (get? u.params "mtu");
          peers =
              record {
                address = u.hostname;
                port = u.port;
                public_key = public;
                preshared_key = preshared;
                allowed_ips = or_all_traffic allowed;
                keepalive =
                    get_uint16_of_n l u.params
                      ("keepalive" ∷ ("persistentkeepalive" ∷ ("pk_keepalive" ∷ [])));
                reserved = reserved;
              }
              ∷ [];
        })
        o)

unfoldable pub link_parsed : Library → UrlSchema → Outcome WgEndpoint
link_parsed l u = do
  addresses ← parse_prefixes l (l.split (get_one_of_n l u.params "" ("ip" ∷ ("address" ∷ []))) ",")
  allowed ←
      parse_prefixes l
        (l.split (get_one_of_n l u.params "" ("localaddress" ∷ ("allowedips" ∷ []))) ",")
  if same (link_private_key l u) ""
      then fail "missing private_key"
      else if same (link_public_key l u.params) ""
      then fail "missing peer_public_key"
      else if same u.hostname "" || (u.port == 0)
      then fail "missing peer endpoint (host:port)"
      else link_keyed l u addresses allowed

-- The link with its part after the scheme decoded.
unfoldable pub decoded_link : Library → String → String
decoded_link l raw = elim (split_in_two raw "://") [
  | none ↦ raw
  | some parts ↦ join parts.0 (join "://" (decode_base64_if_needed l parts.1))
]

-- A link without parameters, or that is none, may be a text; the error is that of the link.
abbrev pub or_text : Outcome (Option WgEndpoint) → Outcome WgEndpoint → Outcome (Option WgEndpoint)
or_text other (ok e) = ok (some e)
or_text other (fail message) = other
or_text other panic = panic

abbrev pub has_none : Params → Bool
has_none [] = true
has_none (p ∷ ps) = false

abbrev pub with_some : Outcome WgEndpoint → Outcome (Option WgEndpoint)
with_some (ok e) = ok (some e)
with_some (fail message) = fail message
with_some panic = panic

abbrev pub link_or_text : Library → String → Outcome UrlSchema → Outcome (Option WgEndpoint)
link_or_text l raw (ok u) =
    if has_none u.params
    then or_text (ok none) (awg_singbox_txt l raw)
    else with_some (link_parsed l u)
link_or_text l raw (fail e) = or_text (fail e) (awg_singbox_txt l raw)
link_or_text l raw panic = panic

-- `AWGSingbox`; `ok none` is the result without an endpoint and without an error.
unfoldable pub awg_singbox : Library → String → Outcome (Option WgEndpoint)
awg_singbox l raw = let link = decoded_link l raw in link_or_text l link (parse_url l link 0)
