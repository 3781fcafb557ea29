-- ===== src/Tests/Reading.antt =====
-- Runs of Config/Reading on a configuration with one entry that does not decode.
use inhive_core.Prelude.{ℕ, [], ◌∷◌, none, some, ok, same, if◌then◌else◌, ◌≡◌, refl}
use inhive_core.Config.Reading.{
  Decoder, ReadOptions, Sections, probe_text, section_of, replaced, keep_entries, salvage_raw,
  salvage_section, salvage_sing_options, read_content, read_sing_options,
}
use inhive_core.Config.Reading.Salvage.{IsRead, read_sing_options-IsRead}

abbrev broken_sections : Sections
broken_sections = ("dns", "{}") ∷ (("outbounds", "[a,b]") ∷ [])

-- The options are the number of outbounds; the entry `b` does not decode.
abbrev decoder : Decoder ℕ
decoder = record {
  read_file = λ path. ok "broken";
  decode = λ text.
      if same text "broken"
      then none
      else if same text (probe_text "outbounds" "b")
      then none
      else some 1;
  shallow = λ text. some broken_sections;
  entries = λ text. some ("a" ∷ ("b" ∷ []));
  marshal_entries = λ es. some "[a]";
  marshal = λ m. some "fixed";
  outbounds = λ n. n;
  endpoints = λ n. 0;
}

abbrev stored_file : ReadOptions ℕ
stored_file = record { path = "profile.json"; content = ""; options = none }

kept_entries : (keep_entries decoder "outbounds" ("a" ∷ ("b" ∷ []))) ≡ ("a" ∷ [], 1)
unfolding keep_entries
kept_entries = refl

read_sing_options-IsRead_example : IsRead decoder stored_file 1
unfolding read_sing_options read_content salvage_sing_options salvage_section salvage_raw section_of
    replaced keep_entries
read_sing_options-IsRead_example = read_sing_options-IsRead decoder stored_file 1 refl
