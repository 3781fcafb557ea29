-- ===== src/Config/Reading.antt =====
-- v2/config/config.go and `ReadContent` of v2/config/parser.go: the reading of a configuration, with the
-- salvage of one that does not decode as a whole. The JSON decoders and the file are parameters; raw
-- JSON is text, and the calls of the log are left out.
pub mod Salvage
use inhive_core.Prelude.{
  ℕ, String, Bool, true, false, ◌&&◌, List, [], ◌∷◌, Option, none, some, Outcome, panic, ok, fail,
  ◌>>=◌, ◌==◌, same, join, if◌then◌else◌, zero, suc, ◌+◌,
}

-- The top level of a JSON object. A key stands in it once.
abbrev pub Sections : Type 0
Sections = List (String × String)

-- `decode` is the strict decoder of sing-box's options, `shallow` and `entries` decode a JSON object and
-- a JSON array one level deep, and the two `marshal` write them; none is an error.
pub record Decoder (O : Type 0) : Type 0 where
  pub read_file : String → Outcome String
  pub decode : String → Option O
  pub shallow : String → Option Sections
  pub entries : String → Option (List String)
  pub marshal_entries : List String → Option String
  pub marshal : Sections → Option String
  pub outbounds : O → ℕ
  pub endpoints : O → ℕ

pub record ReadOptions (O : Type 0) : Type 0 where
  pub path : String
  pub content : String
  pub options : Option O

abbrev pub or_fail {ℓ} : {V : Type ℓ} → Option V → Outcome V
or_fail none = fail "json"
or_fail (some v) = ok v

unfoldable pub section_of : Sections → String → Option String
section_of [] k = none
section_of ((k', raw) ∷ m) k = if same k' k then some raw else section_of m k

-- `shallow[section] = rebuilt`, for a key that is there.
unfoldable pub replaced : String → String → Sections → Sections
replaced k raw [] = []
replaced k raw ((k', raw') ∷ m) = (k', if same k' k then raw else raw') ∷ replaced k raw m

abbrev pub is_some {ℓ} : {V : Type ℓ} → Option V → Bool
is_some (some v) = true
is_some none = false

-- The text of `{%q:[%s]}`, for a section whose name needs no escape.
abbrev pub probe_text : String → String → String
probe_text section entry = join "{\"" (join section (join "\":[" (join entry "]}")))

abbrev pub add_kept : Bool → String → List String × ℕ → List String × ℕ
add_kept true entry (kept, dropped) = (entry ∷ kept, dropped)
add_kept false entry (kept, dropped) = (kept, suc dropped)

module _ {O : Type 0} (d : Decoder O) where
  unfoldable pub read_content : ReadOptions O → Outcome String
  read_content opt = if same opt.content "" then d.read_file opt.path else ok opt.content

  -- Whether an entry decodes when it stands alone.
  abbrev pub is_valid_entry : String → String → Bool
  is_valid_entry section entry = is_some (d.decode (probe_text section entry))

  -- The entries kept and the number of those dropped.
  unfoldable pub keep_entries : String → List String → List String × ℕ
  keep_entries section [] = ([], 0)
  keep_entries section (entry ∷ es) =
      add_kept (is_valid_entry section entry) entry (keep_entries section es)

  unfoldable pub salvage_raw : String → String → Sections → Outcome (Sections × ℕ)
  salvage_raw section raw m = do
    es ← or_fail (d.entries raw)
    rebuilt ← or_fail (d.marshal_entries (keep_entries section es).0)
    ok (replaced section rebuilt m, (keep_entries section es).1)

  abbrev pub salvage_found : String → Option String → Sections → Outcome (Sections × ℕ)
  salvage_found section none m = ok (m, 0)
  salvage_found section (some raw) m = salvage_raw section raw m

  unfoldable pub salvage_section : String → Sections → Outcome (Sections × ℕ)
  salvage_section section m = salvage_found section (section_of m section) m

  abbrev pub checked_salvage : O → Outcome O
  checked_salvage o =
      if (d.outbounds o == 0) && (d.endpoints o == 0)
      then fail "salvage: no outbounds survived"
      else ok o

  -- What follows the loop over the two sections, without and with a dropped entry.
  abbrev pub rebuilt_options : ℕ → Sections → Outcome O
  rebuilt_options zero m = fail "salvage: no droppable entries found"
  rebuilt_options (suc n) m = do
    rebuilt ← or_fail (d.marshal m)
    o ← or_fail (d.decode rebuilt)
    checked_salvage o

  unfoldable pub salvage_sing_options : String → Outcome O
  salvage_sing_options content = do
    m ← or_fail (d.shallow content)
    first ← salvage_section "outbounds" m
    second ← salvage_section "endpoints" first.0
    rebuilt_options (first.1 + second.1) second.0

  -- An error of the salvage gives that of the decoder.
  abbrev pub or_error : Outcome O → Outcome O
  or_error (ok o) = ok o
  or_error (fail e) = fail "unmarshal"
  or_error panic = panic

  abbrev pub or_salvaged : String → Option O → Outcome O
  or_salvaged content (some o) = ok o
  or_salvaged content none = or_error (salvage_sing_options content)

  abbrev pub read_or_given : ReadOptions O → Option O → Outcome O
  read_or_given opt (some o) = ok o
  read_or_given opt none = do content ← read_content opt; or_salvaged content (d.decode content)

  unfoldable pub read_sing_options : ReadOptions O → Outcome O
  read_sing_options opt = read_or_given opt opt.options
