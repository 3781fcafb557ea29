-- ===== src/Share/Url.antt =====
-- xray2sing/ray2sing/url_schema.go: `ParseUrl` and what it calls. Texts are valid UTF-8.
use Prim.Native.String.{slice, len}
use Prim.Native.Char.{code}
use text.Mathlib.Text.{find?}
use inhive_core.Prelude.{
  ℕ, String, Bool, true, false, not, ◌&&◌, ◌||◌, List, [], ◌∷◌, Option, none, some, Outcome, ok,
  fail, same, has_part, if◌then◌else◌, ltb, leb, ◌==◌, ◌+◌,
}
use inhive_core.Share.Library.{Library, Url, Values}
use inhive_core.Share.Lines.{decode_base64_fault_tolerant, joined_by}
use inhive_core.Share.Query.{Params, set, is_one_of, normalize_str, to_uint16, or_empty}

pub record UrlSchema : Type 0 where
  pub scheme : String
  pub username : String
  pub password : String
  pub hostname : String
  pub port : ℕ
  pub name : String
  pub params : Params

abbrev is_base64_char : ℕ → Bool
is_base64_char c =
    (leb 65 c && leb c 90)
    || ((leb 97 c && leb c 122)
        || ((leb 48 c && leb c 57)
            || ((c == 43) || ((c == 47) || ((c == 61) || ((c == 95) || (c == 45)))))))

unfoldable pub all_base64_chars : String → Bool
all_base64_chars String.[] = true
all_base64_chars (String.◌∷◌ c s) = if is_base64_char (code c) then all_base64_chars s else false

unfoldable pub is_base64_chars_only : String → Bool
is_base64_chars_only s = not (same s "") && all_base64_chars s

unfoldable pub is_printable_text : String → Bool
is_printable_text String.[] = true
is_printable_text (String.◌∷◌ c s) =
    if (ltb (code c) 32 && not (code c == 9)) || (code c == 127) then false else is_printable_text s

-- `strings.SplitN` in two, at the first occurrence.
unfoldable pub split_in_two : String → String → Option (String × String)
split_in_two s sep = elim (find? s sep) [
  | none ↦ none
  | some i ↦ some (slice s 0 i, slice s (i + len sep) (len s))
]

-- The user information of a Shadowsocks link: the method and the password.
unfoldable pub user_info : Library → Url → String × String
user_info l u =
    let plain : String × String = (u.username, or_empty u.password) in
    let decoded = decode_base64_fault_tolerant l u.username in
    if same u.scheme "ss" && is_base64_chars_only u.username
    then (if decoded.1 && (has_part decoded.0 ":" && is_printable_text decoded.0)
        then elim (split_in_two decoded.0 ":") [ none ↦ plain | some details ↦ details ]
        else plain)
    else plain

unfoldable pub query_params : Library → Values → Params → Params
query_params l [] params = params
query_params l ((key, values) ∷ more) params =
    query_params l more (set (normalize_str l key) (joined_by "," values) params)

unfoldable pub normalized : Library → List String → List String
normalized l [] = []
normalized l (k ∷ ks) = normalize_str l k ∷ normalized l ks

abbrev unescaped : Library → String → String
unescaped l raw = elim (l.path_unescape raw) [ none ↦ raw | some s ↦ s ]

unfoldable pub override_pair : Library → List String → String → Params → Params
override_pair l want pair params = elim (split_in_two pair "=") [
  | none ↦ params
  | some parts ↦
      let key = normalize_str l (unescaped l parts.0) in
      if is_one_of key want then set key (unescaped l parts.1) params else params
]

unfoldable pub override_pairs : Library → List String → List String → Params → Params
override_pairs l want [] params = params
override_pairs l want (pair ∷ pairs) params =
    override_pairs l want pairs (override_pair l want pair params)

unfoldable pub override_raw_query_params : Library → Params → String → List String → Params
override_raw_query_params l params raw_query keys =
    if same raw_query ""
    then params
    else override_pairs l (normalized l keys) (l.split raw_query "&") params

abbrev pub raw_keys : List String
raw_keys =
    "pbk"
    ∷ ("sid"
        ∷ ("spx"
            ∷ ("publickey"
                ∷ ("peerpublickey"
                    ∷ ("pub"
                        ∷ ("peerpub"
                            ∷ ("presharedkey" ∷ ("psk" ∷ ("privatekey" ∷ ("pk" ∷ []))))))))))

unfoldable pub parse_url : Library → String → ℕ → Outcome UrlSchema
parse_url l input default_port = elim (l.url_parse input) [
  | none ↦ fail "parse"
  | some u ↦
      let user = user_info l u in
      let params = query_params l (l.query_values u.raw_query) [] in
      ok (record {
        scheme = u.scheme;
        username = user.0;
        password = user.1;
        hostname = u.hostname;
        port = to_uint16 l u.port default_port;
        name = u.fragment;
        params = override_raw_query_params l params u.raw_query raw_keys;
      })
]
