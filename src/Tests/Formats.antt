-- ===== src/Tests/Formats.antt =====
-- Runs of Config/Formats on a configuration with two WARP accounts.
use mathlib.Core.List.Memᴰ.{head, tail, not-nil, cases_cons}
use inhive_core.Prelude.{
  String, true, false, List, [], ◌∷◌, map, Option, none, some, fail, same, eq_iff, Bool-cases,
  if◌then◌else◌, ◌≡◌, refl, ap, subst, sym, apart, inl, inr,
}
use inhive_core.Config.SingBox.{Endpoint, Options}
use inhive_core.Config.Warp.{generate_warp_singbox_new}
use inhive_core.Config.Build.{no_options}
use inhive_core.Config.Formats.Library.{text, object, no_fields, field, Formats}
use inhive_core.Config.Formats.{
  value_at, batch_results, is_endpoint_type, single_object, parse_singbox_json,
  parse_config_content, patch_config_options, validate_result,
}
use inhive_core.Config.Formats.Ready.{RunsTasks, Ready, parse_config_content-Ready}
use inhive_core.Config.Formats.Keyed.{
  AnswersAll, patched, patch_config_options-map, patch_config_options-merged,
}
use inhive_core.Tests.Samples.{value_of, sample_env}

-- The first function of a key answers for it.
abbrev first_answer : List (String × Endpoint) → String → Option Endpoint
first_answer [] k = none
first_answer ((k', e) ∷ ts) k = if same k' k then some e else first_answer ts k

first_answer-RunsTasks : RunsTasks first_answer
first_answer-RunsTasks [] k e h = cc
first_answer-RunsTasks ((k', e') ∷ ts) k e h = elim (Bool-cases (same k' k)) [
  | inl p ↦
      let same_end = subst (λ b. (if b then some e' else first_answer ts k) ≡ some e) p h in
      head (cc (same_end, (eq_iff k' k).0 p))
  | inr p ↦ tail (
      first_answer-RunsTasks ts k e
        (subst (λ b. (if b then some e' else first_answer ts k) ≡ some e) p h))
]

first_answer-AnswersAll : AnswersAll first_answer
first_answer-AnswersAll [] k e m = absurd (not-nil m)
first_answer-AnswersAll ((k', e') ∷ ts) k e m = elim (Bool-cases (same k' k)) [
  | inl p ↦ (e', rw (p) refl)
  | inr p ↦ elim (cases_cons m) [
    | inl q ↦ absurd (apart k' k p (sym (ap (λ task. task.0) q)))
    | inr later ↦ let found = first_answer-AnswersAll ts k e later in (found.0, rw (p) found.1)
  ]
]

abbrev account : String → Endpoint
account tag = record (generate_warp_singbox_new tag) { tag = tag }

abbrev accounts : String → String → Options
accounts a b = record no_options { endpoints = account a ∷ (account b ∷ []) }

-- The content is an object of type `warp`, and sing-box decodes two accounts with one tag.
abbrev formats : Formats
formats = record {
  decode_json = λ s. some (object (field "type" (text "warp") no_fields));
  creates_endpoint = λ s. same s "warp";
  marshal = λ m. some "endpoints";
  unmarshal = λ s. some (accounts "" "");
  run_batch = first_answer;
  check_config_options = λ o. true;
  ray2singbox_options = λ s xray. fail "no link";
  decode_clash = λ s. none;
  clash_to_sing = λ c. none;
  patch_clash = λ s. none;
}

abbrev accepted : Options
accepted = value_of no_options (parse_config_content formats sample_env "{}" none false)

parse_config_content-Ready_example : Ready formats accepted
unfolding parse_config_content parse_singbox_json single_object is_endpoint_type value_at
    patch_config_options batch_results
parse_config_content-Ready_example =
    parse_config_content-Ready formats first_answer-RunsTasks sample_env "{}" none false

patch_config_options-map_example :
    patch_config_options formats sample_env (accounts "one" "two") "V2rayParser"
    ≡ validate_result formats sample_env
        (record no_options {
          endpoints = map (patched sample_env) (account "one" ∷ (account "two" ∷ []));
        })
        "V2rayParser"
patch_config_options-map_example =
    patch_config_options-map sample_env formats (accounts "one" "two") "V2rayParser"
      first_answer-RunsTasks first_answer-AnswersAll ((apart "one" "two" refl, tt), (tt, tt))

patch_config_options-merged_example :
    (e : Endpoint) × ((value_of no_options
        (patch_config_options formats sample_env (accounts "" "") "V2rayParser")).endpoints
      ≡ e ∷ e ∷ [])
unfolding patch_config_options batch_results
patch_config_options-merged_example =
    patch_config_options-merged sample_env formats (accounts "" "") "V2rayParser" (account "")
      (account "") refl refl refl
