-- ===== src/Share/Lines.antt =====
-- xray2sing/ray2sing/hb64.go, `decodeBase64IfNeeded` of common.go, and spliter.go: the lines of a
-- subscription.
use Prim.Native.String.{len, slice}
use Prim.Native.Char.{code}
use inhive_core.Prelude.{
  ℕ, String, Bool, true, false, ◌||◌, List, [], ◌∷◌, ◌++◌, Option, none, some, same, has_prefix,
  join, if◌then◌else◌, ◌-◌, ◌%◌, ◌==◌, zero, suc,
}
use inhive_core.Share.Library.{Library}

-- `strings.TrimPrefix`.
abbrev pub trim_prefix : String → String → String
trim_prefix s p = if has_prefix s p then slice s (len p) (len s) else s

-- `strings.Map` with the white space dropped.
unfoldable pub without_space : String → String
without_space String.[] = String.[]
without_space (String.◌∷◌ c s) =
    if (code c == 32) || ((code c == 9) || ((code c == 13) || (code c == 10)))
    then without_space s
    else String.◌∷◌ c (without_space s)

-- `strings.Repeat`.
abbrev repeated : String → ℕ → String
repeated s zero = ""
repeated s (suc n) = join s (repeated s n)

unfoldable pub padded : String → String
padded raw = let m = len raw % 4 in if m == 0 then raw else join raw (repeated "=" (4 - m))

-- The second component is whether there was no error.
abbrev decoded_or : Option String → String × Bool → String × Bool
decoded_or none other = other
decoded_or (some s) other = (s, true)

unfoldable pub decode_base64_fault_tolerant : Library → String → String × Bool
decode_base64_fault_tolerant l s =
    let raw = padded (without_space (l.trim_space (trim_prefix s "\u{feff}"))) in
    decoded_or (l.std_decode raw) (decoded_or (l.url_decode raw) (raw, false))

unfoldable pub decode_base64_if_needed : Library → String → String
decode_base64_if_needed l s = let d = decode_base64_fault_tolerant l s in if d.1 then d.0 else s

-- The replacer of `\r` and `\t` by `\n`.
unfoldable pub with_line_ends : String → String
with_line_ends String.[] = String.[]
with_line_ends (String.◌∷◌ c s) =
    if (code c == 13) || (code c == 9)
    then join "\n" (with_line_ends s)
    else String.◌∷◌ c (with_line_ends s)

unfoldable pub pieces : String → List (ℕ × ℕ) → List String
pieces text [] = []
pieces text ((start, stop) ∷ []) = slice text start (len text) ∷ []
pieces text ((start, stop) ∷ ((next, stop') ∷ more)) =
    slice text start next ∷ pieces text ((next, stop') ∷ more)

unfoldable pub split_by_prefix : Library → String → List String
split_by_prefix l text = elim (l.find_all_string_index text) [
  | [] ↦ text ∷ []
  | i ∷ more ↦ pieces text (i ∷ more)
]

abbrev pub is_comment : String → Bool
is_comment s = has_prefix s "#" || has_prefix s "/"

unfoldable pub added_configs : Library → List String → List String
added_configs l [] = []
added_configs l (c ∷ cs) =
    let tc = l.trim_space c in
    if same tc "" || is_comment tc then added_configs l cs else tc ∷ added_configs l cs

unfoldable pub trimmed_lines : Library → List String → List String
trimmed_lines l [] = []
trimmed_lines l (line ∷ lines) = l.trim_space (trim_prefix line "\u{feff}") ∷ trimmed_lines l lines

unfoldable pub decoded_lines : Library → List String → List String
decoded_lines l [] = []
decoded_lines l (config ∷ configs) =
    trimmed_lines l
      (l.split (with_line_ends (decode_base64_if_needed l (trim_prefix config "\u{feff}"))) "\n")
    ++ decoded_lines l configs

-- `strings.Join`.
abbrev pub joined_by : String → List String → String
joined_by sep [] = ""
joined_by sep (s ∷ []) = s
joined_by sep (s ∷ (t ∷ more)) = join s (join sep (joined_by sep (t ∷ more)))

unfoldable pub expand_decoded_config : Library → String → List String
unfolding added_configs decoded_lines
expand_decoded_config l configs =
    added_configs l (split_by_prefix l (joined_by "\n" (decoded_lines l (l.split configs "\n"))))
