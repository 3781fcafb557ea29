-- ===== src/Hcore/Commands/HotAdd/Pairs.antt =====
-- The pair of a main outbound and its helper, from `AddOutbound` to `RemoveOutbound`.
use text.Mathlib.TextPositions.{starts_with-append}
use mathlib.Core.List.{Memᴰ}
use inhive_core.Prelude.{
  String, true, List, [], ◌∷◌, Option, none, some, ◌≡◌, ◌≢◌, refl, arith, Bool-cases, inl, inr,
  same, same-ne, has_prefix, ap, sym, ◌∙◌,
}
use inhive_core.Hcore.Commands.{HotOptions}
use inhive_core.Hcore.Commands.HotAdd.{
  first_tagged, retagged, paired, helper_tag, helper_mark, plan_of, overridden, Plan,
}

abbrev some_value : HotOptions → Option HotOptions → HotOptions
some_value o none = o
some_value o (some p) = p

some_injective : {o p : HotOptions} → some o ≡ some p → o ≡ p
some_injective {o} e = ap (some_value o) e

-- Planned first is the main outbound; it dials through a planned helper, whose tag is made of the main
-- tag and the helper's type, so that `RemoveOutbound` takes it for a helper of the main tag.
abbrev pub IsPaired : String → List HotOptions → Type 0
IsPaired main_tag outbounds =
    (main : HotOptions) × (others : List HotOptions) × (helper : HotOptions) × (outbounds
      ≡ main ∷ others)
    × (main.tag ≡ main_tag)
    × Memᴰ helper others
    × (helper.tag ≡ helper_tag main_tag helper.kind)
    × (main.detour ≡ some helper.tag)
    × (has_prefix helper.tag (helper_mark main_tag) ≡ true)

retagged-Memᴰ :
    (old new : String) (os : List HotOptions) (o : HotOptions)
    → first_tagged old os ≡ some o
    → Memᴰ (record o { tag = new }) (retagged old new os)
unfolding first_tagged retagged
retagged-Memᴰ old new [] o e = cc
retagged-Memᴰ old new (p ∷ os) o e = elim (Bool-cases (same p.tag old)) [
  | inl q ↦
      let found : some p ≡ some o = rw q at e in
      rw (q)
        (Memᴰ.head (ap (λ (x : HotOptions). record x { tag = new }) (sym (some_injective found))))
  | inr q ↦
      let later : first_tagged old os ≡ some o = rw q at e in
      rw (q) (Memᴰ.tail (retagged-Memᴰ old new os o later))
]

overridden-detour : (tag : String) (o : HotOptions) → (overridden tag o).detour ≡ o.detour
overridden-detour tag o = ground arith

paired_lem :
    (main : HotOptions) (others : List HotOptions) (d : String) (helper : HotOptions)
    → main.detour ≡ some d
    → d ≢ ""
    → first_tagged d others ≡ some helper
    → let tag = helper_tag main.tag helper.kind in
      paired main others ≡ record main { detour = some tag } ∷ retagged d tag others
unfolding paired
paired_lem main others d helper e h f = rw (e, paired, f, same-ne d "" h) refl

-- An outbound whose detour is the tag of another one of the content is planned as a pair, whatever tag
-- it is given.
plan_of-IsPaired :
    (tag_override : String) (main : HotOptions) (others endpoints : List HotOptions) (d : String)
    (helper : HotOptions)
    → main.detour ≡ some d
    → d ≢ ""
    → first_tagged d others ≡ some helper
    → (plan : Plan) × (plan_of tag_override (main ∷ others) endpoints ≡ some plan)
      × IsPaired plan.main_tag plan.outbounds
unfolding plan_of
plan_of-IsPaired tag_override main others endpoints d helper e h f =
    let m = overridden tag_override main in
    let tag = helper_tag m.tag helper.kind in
    (
      record { main_tag = m.tag; outbounds = paired m others; endpoints = endpoints },
      refl,
      (
        record m { detour = some tag },
        retagged d tag others,
        record helper { tag = tag },
        paired_lem m others d helper (overridden-detour tag_override main ∙ e) h f,
        refl,
        retagged-Memᴰ d tag others helper f,
        refl,
        refl,
        starts_with-append (helper_mark m.tag) helper.kind,
      ),
    )
