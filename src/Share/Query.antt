-- ===== src/Share/Query.antt =====
-- The parameters of a link and the readers of single values in xray2sing/ray2sing/common.go,
-- `normalizeStr` of url_schema.go and `normalizeVlessFlow` of vless.go.
use Prim.Native.String.{len}
use Prim.Native.Char.{Char, code}
use inhive_core.Prelude.{
  ℕ, String, Bool, true, false, ◌&&◌, ◌||◌, List, [], ◌∷◌, Option, none, some, Outcome, ok, fail,
  same, join, if◌then◌else◌, ltb, leb, ◌==◌, ◌%◌, ◌-◌,
}
use inhive_core.Share.Library.{Library, ℤ, pos, negsuc}
use inhive_core.Share.Lines.{trim_prefix}

-- `map[string]string`: the first entry of a key counts.
abbrev pub Params : Type 0
Params = List (String × String)

unfoldable pub get? : Params → String → Option String
get? [] k = none
get? ((k', v) ∷ m) k = if same k' k then some v else get? m k

abbrev pub or_empty : Option String → String
or_empty none = ""
or_empty (some s) = s

-- `decoded[k]`.
abbrev pub get : Params → String → String
get m k = or_empty (get? m k)

abbrev pub set : String → String → Params → Params
set k v m = (k, v) ∷ m

abbrev pub is_one_of : String → List String → Bool
is_one_of s [] = false
is_one_of s (t ∷ ts) = same s t || is_one_of s ts

-- `strings.ReplaceAll` for a single character.
unfoldable pub replace_char : ℕ → Char → String → String
replace_char from to String.[] = String.[]
replace_char from to (String.◌∷◌ c s) =
    String.◌∷◌ (if code c == from then to else c) (replace_char from to s)

unfoldable pub normalize_str : Library → String → String
normalize_str l ss = replace_char 45 " " (replace_char 95 " " (l.to_lower (l.trim_space ss)))

unfoldable pub get_one_of : Params → List String → Option String
get_one_of dic [] = none
get_one_of dic (h ∷ headers) = elim (get? dic h) [ none ↦ get_one_of dic headers | some s ↦ some s ]

unfoldable pub get_one_of_n : Library → Params → String → List String → String
get_one_of_n l dic default_val [] = default_val
get_one_of_n l dic default_val (h ∷ headers) = elim (get? dic (normalize_str l h)) [
  | none ↦ get_one_of_n l dic default_val headers
  | some s ↦ s
]

unfoldable pub to_int : Library → String → ℤ
to_int l s = elim (l.atoi s) [ none ↦ pos 0 | some i ↦ i ]

abbrev pub is_positive : ℤ → Bool
is_positive (pos n) = ltb 0 n
is_positive (negsuc n) = false

-- An `int64` from its bits.
abbrev pub wrapped_64 : ℕ → ℤ
wrapped_64 n =
    let bits = n % 18446744073709551616 in
    if ltb bits 9223372036854775808 then pos bits else negsuc (18446744073709551615 - bits)

-- Go's `uint16(i)`.
abbrev pub wrapped_16 : ℤ → ℕ
wrapped_16 (pos n) = n % 65536
wrapped_16 (negsuc n) = 65535 - n % 65536

unfoldable pub to_uint16 : Library → String → ℕ → ℕ
to_uint16 l s default_port = elim (l.parse_uint 16 s) [ none ↦ default_port | some n ↦ n ]

unfoldable pub to_bool : Library → String → Bool → Bool
to_bool l s def =
    let word = l.to_lower s in
    if is_one_of word ("true" ∷ ("1" ∷ ("yes" ∷ ("on" ∷ []))))
    then true
    else if is_one_of word ("false" ∷ ("0" ∷ ("no" ∷ ("off" ∷ []))))
    then false
    else def

unfoldable pub normalize_packet_encoding : Library → String → String
normalize_packet_encoding l v =
    let word = l.to_lower (l.trim_space v) in
    if same word "packetaddr" then "packetaddr" else if same word "xudp" then "xudp" else ""

unfoldable pub normalize_mux_protocol : Library → String → String
normalize_mux_protocol l raw =
    let word = l.to_lower (l.trim_space raw) in
    if is_one_of word ("" ∷ ("none" ∷ ("off" ∷ ("disabled" ∷ ("0" ∷ [])))))
    then ""
    else if is_one_of word ("h2" ∷ ("h2mux" ∷ []))
    then "h2mux"
    else if same word "smux"
    then "smux"
    else if same word "yamux"
    then "yamux"
    else ""

unfoldable pub normalize_tls_version : Library → String → String
normalize_tls_version l v =
    let word = trim_prefix (trim_prefix (l.to_lower (l.trim_space v)) "tlsv") "tls" in
    if is_one_of word ("1.0" ∷ ("1.1" ∷ ("1.2" ∷ ("1.3" ∷ [])))) then word else ""

-- `strings.TrimRight` with "=".
abbrev is_empty_text : String → Bool
is_empty_text String.[] = true
is_empty_text (String.◌∷◌ c s) = false

unfoldable pub trim_padding : String → String
trim_padding String.[] = String.[]
trim_padding (String.◌∷◌ c s) =
    let rest = trim_padding s in
    if is_empty_text rest && (code c == 61) then String.[] else String.◌∷◌ c rest

unfoldable pub normalize_reality_public_key : Library → String → String
normalize_reality_public_key l v =
    replace_char 47 "_" (replace_char 43 "-" (trim_padding (l.trim_space v)))

abbrev in_range : ℕ → ℕ → ℕ → Bool
in_range low high c = leb low c && leb c high

abbrev pub is_hex : ℕ → Bool
is_hex c = in_range 48 57 c || (in_range 97 102 c || in_range 65 70 c)

unfoldable pub all_hex : String → Bool
all_hex String.[] = true
all_hex (String.◌∷◌ c s) = if is_hex (code c) then all_hex s else false

unfoldable pub normalize_reality_short_id : Library → String → String
normalize_reality_short_id l v =
    let sid = l.trim_space v in if ltb 16 (len sid) then "" else if all_hex sid then sid else ""

unfoldable pub normalize_vless_flow : Library → String → Outcome String
normalize_vless_flow l flow =
    let word = l.to_lower (l.trim_space flow) in
    if is_one_of word ("" ∷ ("none" ∷ []))
    then ok ""
    else if is_one_of word ("xtls-rprx-vision" ∷ ("xtls-rprx-vision-udp443" ∷ []))
    then ok "xtls-rprx-vision"
    else if is_one_of word (
        "xtls-rprx-origin"
        ∷ ("xtls-rprx-origin-udp443"
            ∷ ("xtls-rprx-direct"
                ∷ ("xtls-rprx-direct-udp443"
                    ∷ ("xtls-rprx-splice" ∷ ("xtls-rprx-splice-udp443" ∷ []))))))
    then fail (
        join "legacy XTLS flow '" (
          join flow
            "' is not supported by sing-box; the server must be migrated to xtls-rprx-vision or plain TLS"))
    else fail (join "unknown VLESS flow '" (join flow "'"))
