-- ===== src/Share/Convert/Failures.antt =====
-- What a link that cannot be parsed costs a conversion.
use inhive_core.Prelude.{
  String, List, [], ◌∷◌, ◌++◌, fail, ◌≡◌, refl, ap, All, Bool-cases, inl, inr,
}
use inhive_core.Share.Links.{Links}
use inhive_core.Share.Lines.{decode_base64_if_needed}
use inhive_core.Share.Convert.{
  Converted, add_outend, add_chain, add_config, add_configs, nothing_converted, conversion,
  is_ignored, process_single_config,
}

-- The parsing of a link ends in an error.
abbrev pub IsBad : Links → String → Type 0
IsBad l chain =
    (e : String) × (process_single_config l (decode_base64_if_needed l.library chain) ≡ fail e)

-- The state but for the detour of a line that has ended.
abbrev between : Converted → Converted
between s = record s { detour_tag = "" }

add_chain-bad :
    (l : Links) (chains : List String) (s : Converted)
    → All (IsBad l) chains
    → add_chain l chains s ≡ s
unfolding add_chain add_outend
add_chain-bad l [] s h = refl
add_chain-bad l (chain ∷ chains) s h = rw (h.0.1) (add_chain-bad l chains s h.1)

add_config-between :
    (l : Links) (config : String) (s s' : Converted)
    → between s ≡ between s'
    → between (add_config l config s) ≡ between (add_config l config s')
unfolding add_config
add_config-between l config s s' e = elim (Bool-cases (is_ignored config)) [
  | inl h ↦ rw (h) e
  | inr h ↦ rw (h) (ap (λ t. between (add_chain l (l.library.split config " -> ") t)) e)
]

add_config-bad :
    (l : Links) (config : String) (s : Converted)
    → All (IsBad l) (l.library.split config " -> ")
    → between (add_config l config s) ≡ between s
unfolding add_config
add_config-bad l config s h = elim (Bool-cases (is_ignored config)) [
  | inl q ↦ rw (q) refl
  | inr q ↦ rw (q) (ap between (add_chain-bad l (l.library.split config " -> ") (between s) h))
]

add_configs-between :
    (l : Links) (configs : List String) (s s' : Converted)
    → between s ≡ between s'
    → between (add_configs l configs s) ≡ between (add_configs l configs s')
unfolding add_configs
add_configs-between l [] s s' e = e
add_configs-between l (config ∷ configs) s s' e =
    add_configs-between l configs (add_config l config s) (add_config l config s')
      (add_config-between l config s s' e)

add_configs-append :
    (l : Links) (before after : List String) (s : Converted)
    → add_configs l (before ++ after) s ≡ add_configs l after (add_configs l before s)
unfolding add_configs
add_configs-append l [] after s = refl
add_configs-append l (config ∷ before) after s =
    add_configs-append l before after (add_config l config s)

-- A line whose links cannot be parsed does not change what the other lines are converted to: not the
-- outbounds and endpoints, not their tags and detours, and not whether there is an error.
pub add_configs-bad_line :
    (l : Links) (before after : List String) (bad : String)
    → All (IsBad l) (l.library.split bad " -> ")
    → conversion (add_configs l (before ++ (bad ∷ after)) nothing_converted)
      ≡ conversion (add_configs l (before ++ after) nothing_converted)
unfolding add_configs conversion
add_configs-bad_line l before after bad h =
    let s = add_configs l before nothing_converted in
    rw
      (
        add_configs-append l before (bad ∷ after) nothing_converted,
        add_configs-append l before after nothing_converted,
      )
      (ap conversion
        (add_configs-between l after (add_config l bad s) s (add_config-bad l bad s h)))
