-- ===== src/Share/Awg.antt =====
-- xray2sing/ray2sing/awg.go, the values of AmneziaWG and WireGuard: keys, junk headers, obfuscation
-- chains, reserved bytes and addresses. The texts of errors are shortened.
pub mod Text
pub mod Link
pub mod Grammar
pub mod Accepted
use Prim.Native.String
use Prim.Native.String.{len, String}
use Prim.Native.Char.{Char, code}
use inhive_core.Prelude.{
  ℕ, Bool, true, false, not, ◌&&◌, ◌||◌, List, [], ◌∷◌, ◌++◌, Option, none, some, Outcome, panic,
  ok, fail, ◌>>=◌, same, join, if◌then◌else◌, length, ltb, leb, ◌==◌, ◌+◌, ◌-◌, ◌%◌,
}
use inhive_core.Share.Library.{Library, ℤ, pos, negsuc, Prefix, Range}
use inhive_core.Share.Lines.{trim_prefix, padded}
use inhive_core.Share.Query.{replace_char, trim_padding, is_one_of}

abbrev pub key_of_bytes : Library → String → Option (List ℕ) → Outcome String
key_of_bytes l name none = fail (join "invalid " (join name ": not valid base64"))
key_of_bytes l name (some raw) =
    if length raw == 32
    then ok (l.encode_bytes raw)
    else fail (join "invalid " (join name ": wrong length"))

unfoldable pub normalize_wg_key : Library → String → String → Outcome String
normalize_wg_key l name val =
    let k = l.trim_space val in
    if same k ""
    then ok ""
    else key_of_bytes l name
        (l.decode_bytes (padded (trim_padding (replace_char 95 "/" (replace_char 45 "+" k)))))

abbrev pub bad_header : String → Outcome (Unit {0})
bad_header name = fail (join "invalid " (join name ": want a decimal uint32 or a range"))

abbrev pub header_range : String → Option ℕ → Option ℕ → Outcome (Unit {0})
header_range name none stop = bad_header name
header_range name (some start) none = bad_header name
header_range name (some start) (some stop) =
    if ltb stop start then fail (join "invalid " (join name ": range is reversed")) else ok tt

abbrev pub header_number : String → Option ℕ → Outcome (Unit {0})
header_number name none = bad_header name
header_number name (some n) = ok tt

-- `strings.Split` gives one part at least.
abbrev pub header_parts : Library → String → List String → Outcome (Unit {0})
header_parts l name [] = panic
header_parts l name (a ∷ []) = header_number name (l.parse_uint 32 a)
header_parts l name (a ∷ (b ∷ [])) = header_range name (l.parse_uint 32 a) (l.parse_uint 32 b)
header_parts l name (a ∷ (b ∷ (c ∷ more))) = bad_header name

unfoldable pub validate_magic_header : Library → String → String → Outcome (Unit {0})
validate_magic_header l name spec =
    if same spec "" then ok tt else header_parts l name (l.split spec "-")

abbrev pub non_negative : Option ℤ → Bool
non_negative none = false
non_negative (some (pos n)) = true
non_negative (some (negsuc n)) = false

abbrev pub is_hex_value : Library → String → Bool
is_hex_value l v = not (same v "") && ((len v % 2 == 0) && l.is_hex_text v)

-- The switch on the key of a tag: whether the runtime takes the tag.
unfoldable pub is_known_tag : Library → String → String → Bool
is_known_tag l key val =
    if same key "b"
    then is_hex_value l (trim_prefix val "0x")
    else if is_one_of key ("t" ∷ ("d" ∷ ("ds" ∷ [])))
    then true
    else if is_one_of key ("r" ∷ ("rc" ∷ ("rd" ∷ ("dz" ∷ []))))
    then non_negative (l.atoi val)
    else false

abbrev pub is_good_tag : Library → List String → Bool
is_good_tag l [] = false
is_good_tag l (key ∷ []) = is_known_tag l key ""
is_good_tag l (key ∷ (val ∷ more)) = is_known_tag l key val

-- The loop of `validateObfSpec`, character by character: the text of the tag that is open, if one is, and
-- the rest of the text.
abbrev pub close_tag : Library → String → Char → Outcome (Option String)
close_tag l tag c =
    if code c == 62
    then (if is_good_tag l (l.fields tag) then ok none else fail "invalid tag")
    else ok (some (join tag (String.◌∷◌ c "")))

abbrev pub next_tag : Library → Option String → Char → Outcome (Option String)
next_tag l none c = ok (if code c == 60 then some "" else none)
next_tag l (some tag) c = close_tag l tag c

unfoldable pub obf_from : Library → Option String → String → Outcome (Unit {0})
obf_from l none String.[] = ok tt
obf_from l (some tag) String.[] = fail "missing enclosing '>'"
obf_from l open_tag (String.◌∷◌ c s) = do next ← next_tag l open_tag c; obf_from l next s

unfoldable pub validate_obf_spec : Library → String → Outcome (Unit {0})
validate_obf_spec l spec = obf_from l none spec

-- `clampAwgInt`; the minimum is not negative.
unfoldable pub clamp_awg_int : ℤ → ℕ → ℤ
clamp_awg_int (pos n) least = if not (n == 0) && ltb n least then pos 0 else pos n
clamp_awg_int (negsuc n) least = pos 0

-- The bytes of a list, without the empty parts.
unfoldable pub reserved_bytes : Library → List String → Option (List ℕ)
reserved_bytes l [] = some []
reserved_bytes l (part ∷ parts) =
    let text = l.trim_space part in
    let rest = reserved_bytes l parts in
    if same text "" then rest else elim (l.parse_uint 8 text) [
      | none ↦ none
      | some n ↦ elim rest [ none ↦ none | some ns ↦ some (n ∷ ns) ]
    ]

abbrev pub is_reserved : List ℕ → Bool
is_reserved bytes = (length bytes == 0) || (length bytes == 3)

abbrev pub checked_reserved : Option (List ℕ) → Outcome (List ℕ)
checked_reserved none = fail "invalid reserved: values must be bytes (0-255)"
checked_reserved (some bytes) =
    if is_reserved bytes then ok bytes else fail "invalid reserved: want exactly 3 values"

unfoldable pub parse_reserved_list : Library → String → Outcome (List ℕ)
parse_reserved_list l raw = checked_reserved (reserved_bytes l (l.split raw ","))

unfoldable pub parse_addr_or_prefix : Library → String → Outcome Prefix
parse_addr_or_prefix l s = elim (l.parse_prefix s) [
  | some p ↦ ok p
  | none ↦ elim (l.parse_addr s) [
    | none ↦ fail "not an IP or CIDR"
    | some a ↦ ok (record { address = a; bits = a.bit_len })
  ]
]

-- A peer, the same for both types of endpoint.
pub record Peer : Type 0 where
  pub address : String
  pub port : ℕ
  pub public_key : String
  pub preshared_key : String
  pub allowed_ips : List Prefix
  pub keepalive : ℕ
  pub reserved : List ℕ

-- The settings of AmneziaWG, `0` and `""` where they are not set.
pub record Obfuscation : Type 0 where
  pub jc : ℤ
  pub jmin : ℤ
  pub jmax : ℤ
  pub s1 : ℤ
  pub s2 : ℤ
  pub s3 : ℤ
  pub s4 : ℤ
  pub itime : ℤ
  pub h1 : String
  pub h2 : String
  pub h3 : String
  pub h4 : String
  pub i1 : String
  pub i2 : String
  pub i3 : String
  pub i4 : String
  pub i5 : String
  pub j1 : String
  pub j2 : String
  pub j3 : String

unfoldable pub clamped : Obfuscation → Obfuscation
clamped o = record o {
  jc = clamp_awg_int o.jc 1;
  jmin = clamp_awg_int o.jmin 1;
  jmax = clamp_awg_int o.jmax 1;
  s1 = clamp_awg_int o.s1 0;
  s2 = clamp_awg_int o.s2 0;
  s3 = clamp_awg_int o.s3 0;
  s4 = clamp_awg_int o.s4 0;
  itime = clamp_awg_int o.itime 0;
}

abbrev pub all_headers : Library → List (String × String) → Outcome (Unit {0})
all_headers l [] = ok tt
all_headers l ((name, spec) ∷ more) = validate_magic_header l name spec >>= λ u. all_headers l more

abbrev pub all_chains : Library → List String → Outcome (Unit {0})
all_chains l [] = ok tt
all_chains l (spec ∷ more) = validate_obf_spec l spec >>= λ u. all_chains l more

-- Both loops over the junk headers and the obfuscation chains.
unfoldable pub validate_specs : Library → Obfuscation → Outcome (Unit {0})
validate_specs l o = do
  u ← all_headers l (("H1", o.h1) ∷ (("H2", o.h2) ∷ (("H3", o.h3) ∷ (("H4", o.h4) ∷ []))))
  all_chains l (o.i1 ∷ (o.i2 ∷ (o.i3 ∷ (o.i4 ∷ (o.i5 ∷ [])))))

-- The two's complement of an `int`.
abbrev pub bits_64 : ℤ → ℕ
bits_64 (pos n) = n % 18446744073709551616
bits_64 (negsuc n) = 18446744073709551615 - n % 18446744073709551616

-- Go's sum of `int` values, compared with zero.
abbrev pub sum_bits : List ℤ → ℕ
sum_bits [] = 0
sum_bits (i ∷ is) = bits_64 i + sum_bits is

-- Whether no setting of AmneziaWG is there.
unfoldable pub is_plain : Obfuscation → Bool
is_plain o =
    (sum_bits (o.jc ∷ (o.jmin ∷ (o.jmax ∷ (o.s1 ∷ (o.s2 ∷ (o.s3 ∷ (o.s4 ∷ (o.itime ∷ []))))))))
        % 18446744073709551616
      == 0)
    && same
        (join o.h1 (
          join o.h2 (
            join o.h3 (
              join o.h4 (
                join o.i1
                  (join o.i2 (join o.i3 (join o.i4 (join o.i5 (join o.j1 (join o.j2 o.j3)))))))))))
        ""

-- `warpobf.NoiseOptions`.
pub record Noise : Type 0 where
  pub enabled : Bool
  pub count : Range
  pub size : Range
  pub delay : Range
  pub mode : String

-- What an endpoint of either type has.
pub record Tunnel : Type 0 where
  pub tag : String
  pub private_key : String
  pub addresses : List Prefix
  pub mtu : ℕ
  pub peers : List Peer

pub data WgEndpoint : Type 0 where
  wireguard : (tunnel : Tunnel) → (noise : Noise) → (workers : ℤ) → WgEndpoint
  awg : (tunnel : Tunnel) → (obfuscation : Obfuscation) → WgEndpoint
