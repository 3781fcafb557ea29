-- ===== src/Share/Awg/Text.antt =====
-- `AWGSingboxTxt` of xray2sing/ray2sing/awg.go: a text of wg-quick, line by line.
use Prim.Native.String.{len, slice, String}
use Prim.Native.Char.{code}
use inhive_core.Prelude.{
  ℕ, Bool, true, false, ◌&&◌, ◌||◌, List, [], ◌∷◌, ◌++◌, Option, none, some, Outcome, ok, fail,
  ◌>>=◌, same, has_prefix, if◌then◌else◌, ◌==◌, ◌-◌,
}
use inhive_core.Share.Library.{Library, ℤ, pos, Prefix, Range}
use inhive_core.Share.Query.{get?, wrapped_16}
use inhive_core.Share.Url.{split_in_two}
use inhive_core.Share.Awg.{
  Peer, Obfuscation, Noise, Tunnel, WgEndpoint, wireguard, awg, parse_addr_or_prefix,
  reserved_bytes, normalize_wg_key, is_reserved, clamped, validate_specs, is_plain,
}

-- The variables of the loop.
pub record WgState : Type 0 where
  pub private_key : String
  pub addresses : List Prefix
  pub mtu : ℕ
  pub obfuscation : Obfuscation
  pub peers : List Peer
  pub peer : Peer
  pub have_peer : Bool
  pub section : String

abbrev pub no_peer : Peer
no_peer = record {
  address = "";
  port = 0;
  public_key = "";
  preshared_key = "";
  allowed_ips = [];
  keepalive = 0;
  reserved = [];
}

abbrev pub no_obfuscation : Obfuscation
no_obfuscation = record {
  jc = pos 0;
  jmin = pos 0;
  jmax = pos 0;
  s1 = pos 0;
  s2 = pos 0;
  s3 = pos 0;
  s4 = pos 0;
  itime = pos 0;
  h1 = "";
  h2 = "";
  h3 = "";
  h4 = "";
  i1 = "";
  i2 = "";
  i3 = "";
  i4 = "";
  i5 = "";
  j1 = "";
  j2 = "";
  j3 = "";
}

abbrev pub initial : WgState
initial = record {
  private_key = "";
  addresses = [];
  mtu = 0;
  obfuscation = no_obfuscation;
  peers = [];
  peer = no_peer;
  have_peer = false;
  section = "";
}

unfoldable pub flush_peer : WgState → WgState
flush_peer s =
    if s.have_peer
    then record s { peers = s.peers ++ (s.peer ∷ []); peer = no_peer; have_peer = false }
    else s

-- The table of `canonicalWgKey`.
abbrev pub canonical_keys : List (String × String)
canonical_keys =
    ("privatekey", "PrivateKey")
    ∷ (("publickey", "PublicKey")
        ∷ (("presharedkey", "PresharedKey")
            ∷ (("address", "Address")
                ∷ (("allowedips", "AllowedIPs")
                    ∷ (("endpoint", "Endpoint")
                        ∷ (("mtu", "MTU")
                            ∷ (("dns", "DNS")
                                ∷ (("persistentkeepalive", "PersistentKeepalive")
                                    ∷ (("reserved", "Reserved")
                                        ∷ (("jc", "Jc")
                                            ∷ (("jmin", "Jmin")
                                                ∷ (("jmax", "Jmax")
                                                    ∷ (("s1", "S1")
                                                        ∷ (("s2", "S2")
                                                            ∷ (("s3", "S3")
                                                            ∷ (("s4", "S4")
                                                            ∷ (("h1", "H1")
                                                            ∷ (("h2", "H2")
                                                            ∷ (("h3", "H3")
                                                            ∷ (("h4", "H4")
                                                            ∷ (("i1", "I1")
                                                            ∷ (("i2", "I2")
                                                            ∷ (("i3", "I3")
                                                            ∷ (("i4", "I4")
                                                            ∷ (("i5", "I5")
                                                            ∷ (("itime", "Itime")
                                                            ∷ []))))))))))))))))))))))))))

abbrev pub or_itself : String → Option String → String
or_itself key none = key
or_itself key (some canonical) = canonical

unfoldable pub canonical_wg_key : Library → String → String
canonical_wg_key l key = or_itself key (get? canonical_keys (l.to_lower key))

-- The prefixes of `Address`, where an empty part is an error.
unfoldable pub all_prefixes : Library → List String → Outcome (List Prefix)
all_prefixes l [] = ok []
all_prefixes l (part ∷ parts) = do
  p ← parse_addr_or_prefix l (l.trim_space part)
  ps ← all_prefixes l parts
  ok (p ∷ ps)

-- The parts that are not empty.
unfoldable pub set_parts : Library → List String → List String
set_parts l [] = []
set_parts l (part ∷ parts) =
    let rest = set_parts l parts in if same (l.trim_space part) "" then rest else part ∷ rest

abbrev pub or_zero : Option ℕ → ℕ → ℕ
or_zero none n = n
or_zero (some v) n = v

-- The numbers and texts of AmneziaWG.
unfoldable pub set_obfuscation : Library → String → String → Obfuscation → Obfuscation
set_obfuscation l key val o =
    let i = l.atoi_value val in
    if same key "Jc"
    then record o { jc = i }
    else if same key "Jmin"
    then record o { jmin = i }
    else if same key "Jmax"
    then record o { jmax = i }
    else if same key "S1"
    then record o { s1 = i }
    else if same key "S2"
    then record o { s2 = i }
    else if same key "S3"
    then record o { s3 = i }
    else if same key "S4"
    then record o { s4 = i }
    else if same key "H1"
    then record o { h1 = val }
    else if same key "H2"
    then record o { h2 = val }
    else if same key "H3"
    then record o { h3 = val }
    else if same key "H4"
    then record o { h4 = val }
    else if same key "I1"
    then record o { i1 = val }
    else if same key "I2"
    then record o { i2 = val }
    else if same key "I3"
    then record o { i3 = val }
    else if same key "I4"
    then record o { i4 = val }
    else if same key "I5"
    then record o { i5 = val }
    else if same key "J1"
    then record o { j1 = val }
    else if same key "J2"
    then record o { j2 = val }
    else if same key "J3"
    then record o { j3 = val }
    else if same key "Itime" || (same key "ITime" || same key "ITIME")
    then record o { itime = i }
    else o

unfoldable pub interface_line : Library → String → String → WgState → Outcome WgState
interface_line l key val s =
    if same key "PrivateKey"
    then ok (record s { private_key = val })
    else if same key "Address"
    then (do
      more ← all_prefixes l (l.split val ",")
      ok (record s { addresses = s.addresses ++ more }))
    else if same key "MTU"
    then ok (record s { mtu = or_zero (l.parse_uint 32 val) s.mtu })
    else ok (record s { obfuscation = set_obfuscation l key val s.obfuscation })

abbrev pub with_reserved : Peer → Option (List ℕ) → Outcome Peer
with_reserved p none = fail "invalid Reserved"
with_reserved p (some bytes) = ok (record p { reserved = p.reserved ++ bytes })

abbrev pub with_port : Peer → String → Option ℤ → Outcome Peer
with_port p host none = fail "invalid Endpoint port"
with_port p host (some port) = ok (record p { address = host; port = wrapped_16 port })

abbrev pub with_host_port : Library → Peer → Option (String × String) → Outcome Peer
with_host_port l p none = fail "invalid Endpoint"
with_host_port l p (some (host, port)) = with_port p host (l.atoi port)

unfoldable pub peer_line : Library → String → String → Peer → Outcome Peer
peer_line l key val p =
    if same key "PublicKey"
    then ok (record p { public_key = val })
    else if same key "PresharedKey"
    then ok (record p { preshared_key = val })
    else if same key "Reserved"
    then with_reserved p (reserved_bytes l (l.split val ","))
    else if same key "AllowedIPs"
    then (do
      more ← all_prefixes l (set_parts l (l.split val ","))
      ok (record p { allowed_ips = p.allowed_ips ++ more }))
    else if same key "Endpoint"
    then with_host_port l p (l.split_host_port val)
    else if same key "PersistentKeepalive"
    then ok (record p { keepalive = wrapped_16 (l.atoi_value val) })
    else ok p

-- The value without a comment at its end.
unfoldable pub without_comment : Library → String → String
without_comment l val = elim (split_in_two val "#") [
  | none ↦ val
  | some parts ↦ l.trim_space parts.0
]

unfoldable pub key_line : Library → String → String → WgState → Outcome WgState
key_line l key val s =
    if same s.section "interface"
    then interface_line l (canonical_wg_key l key) val s
    else if same s.section "peer"
    then (do
      p ← peer_line l (canonical_wg_key l key) val s.peer
      ok (record s { peer = p; have_peer = true }))
    else ok s

-- `strings.Trim` with "[]".
abbrev is_bracket : ℕ → Bool
is_bracket c = (c == 91) || (c == 93)

unfoldable pub trim_left_brackets : String → String
trim_left_brackets String.[] = String.[]
trim_left_brackets (String.◌∷◌ c s) =
    if is_bracket (code c) then trim_left_brackets s else String.◌∷◌ c s

unfoldable pub trim_right_brackets : String → String
trim_right_brackets String.[] = String.[]
trim_right_brackets (String.◌∷◌ c s) =
    let rest = trim_right_brackets s in
    if same rest "" && is_bracket (code c) then String.[] else String.◌∷◌ c rest

unfoldable pub is_header : String → Bool
is_header line = has_prefix line "[" && same (slice line (len line - 1) (len line)) "]"

abbrev pub pair_line : Library → WgState → Option (String × String) → Outcome WgState
pair_line l s none = ok s
pair_line l s (some (key, val)) =
    key_line l (l.trim_space key) (without_comment l (l.trim_space val)) s

unfoldable pub text_line : Library → String → WgState → Outcome WgState
text_line l raw s =
    let line = l.trim_space raw in
    if same line "" || (has_prefix line "#" || has_prefix line ";")
    then ok s
    else if is_header line
    then ok (record (flush_peer s) {
      section = l.to_lower (trim_right_brackets (trim_left_brackets line));
    })
    else pair_line l s (split_in_two line "=")

unfoldable pub text_lines : Library → List String → WgState → Outcome WgState
text_lines l [] s = ok s
text_lines l (raw ∷ more) s = text_line l raw s >>= text_lines l more

abbrev pub all_traffic : List Prefix
all_traffic =
    record { address = record { text = "0.0.0.0"; bit_len = 32 }; bits = 0 }
    ∷ (record { address = record { text = "::"; bit_len = 128 }; bits = 0 } ∷ [])

abbrev pub or_all_traffic : List Prefix → List Prefix
or_all_traffic [] = all_traffic
or_all_traffic (p ∷ ps) = p ∷ ps

abbrev pub reserved_peer : Peer → Outcome Peer
reserved_peer p =
    if is_reserved p.reserved
    then ok p
    else fail "invalid Reserved: want exactly 3 comma-separated values"

unfoldable pub checked_peer : Library → Peer → Outcome Peer
checked_peer l p =
    if same p.address "" || (p.port == 0)
    then fail "missing peer Endpoint"
    else if same p.public_key ""
    then fail "missing peer PublicKey"
    else (do
      public ← normalize_wg_key l "PublicKey" p.public_key
      preshared ← normalize_wg_key l "PresharedKey" p.preshared_key
      reserved_peer (record p {
        public_key = public;
        preshared_key = preshared;
        allowed_ips = or_all_traffic p.allowed_ips;
      }))

unfoldable pub checked_peers : Library → List Peer → Outcome (List Peer)
checked_peers l [] = ok []
checked_peers l (p ∷ ps) = do q ← checked_peer l p; qs ← checked_peers l ps; ok (q ∷ qs)

abbrev pub some_peers : List Peer → Outcome (Unit {0})
some_peers [] = fail "missing peer Endpoint"
some_peers (p ∷ ps) = ok tt

abbrev pub no_range : Range
no_range = record { from = pos 0; to = pos 0 }

abbrev pub no_noise : Noise
no_noise = record {
  enabled = false;
  count = no_range;
  size = no_range;
  delay = no_range;
  mode = "";
}

abbrev pub wg_tunnel : String → String → WgState → List Peer → Tunnel
wg_tunnel tag private s peers = record {
  tag = tag;
  private_key = private;
  addresses = s.addresses;
  mtu = s.mtu;
  peers = peers;
}

-- What follows the loop.
unfoldable pub text_endpoint : Library → WgState → Outcome WgEndpoint
text_endpoint l s = if same s.private_key "" then fail "missing PrivateKey" else (do
  private ← normalize_wg_key l "PrivateKey" s.private_key
  u ← some_peers s.peers
  peers ← checked_peers l s.peers
  let o = clamped s.obfuscation
  u' ← validate_specs l o
  ok (
      if is_plain o
      then wireguard (wg_tunnel "wireguard" private s peers) no_noise (pos 0)
      else awg (wg_tunnel "awg" private s peers) o))

unfoldable pub awg_singbox_txt : Library → String → Outcome WgEndpoint
awg_singbox_txt l content = do
  s ← text_lines l (l.split content "\n") initial
  text_endpoint l (flush_peer s)
