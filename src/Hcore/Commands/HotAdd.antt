-- ===== src/Hcore/Commands/HotAdd.antt =====
-- v2/hcore/commands.go: `AddOutbound`, `RemoveOutbound` and `outboundTagReferenced`.
pub mod Pairs
pub mod Removes
use inhive_core.Prelude.{
  String, Bool, true, false, not, ◌&&◌, ◌||◌, List, [], ◌∷◌, Option, none, some, Outcome, ok, fail,
  panic, same, has_prefix, join, select, if◌then◌else◌,
}
use inhive_core.Config.Helpers.{contains}
use inhive_core.Hcore.Commands.{
  HotOptions, LiveOutbound, Box, Removal, removed, invalid, refused, CommandReply, done, failed,
  is_selector,
}

-- What `config.ParseConfig` makes of the content.
pub record Parsed : Type 0 where
  pub outbounds : List HotOptions
  pub endpoints : List HotOptions

abbrev pub is_system : String → Bool
is_system kind =
    same kind "selector"
    || (same kind "urltest" || (same kind "direct" || (same kind "block" || same kind "dns")))

abbrev pub overridden : String → HotOptions → HotOptions
overridden tag o = if same tag "" then o else record o { tag = tag }

abbrev pub helper_mark : String → String
helper_mark main_tag = join main_tag " · "

abbrev pub helper_tag : String → String → String
helper_tag main_tag kind = join (helper_mark main_tag) kind

-- The loop over the other outbounds, up to the first that the detour names.
unfoldable pub first_tagged : String → List HotOptions → Option HotOptions
first_tagged tag [] = none
first_tagged tag (o ∷ os) = if same o.tag tag then some o else first_tagged tag os

unfoldable pub retagged : String → String → List HotOptions → List HotOptions
retagged old new [] = []
retagged old new (o ∷ os) =
    if same o.tag old then record o { tag = new } ∷ os else o ∷ retagged old new os

-- The main outbound, whose tag is final, and the others; a helper that the main one names gets a tag
-- of its own.
unfoldable pub paired : HotOptions → List HotOptions → List HotOptions
paired main others = elim main.detour [
  | none ↦ main ∷ others
  | some d ↦ elim (first_tagged d others) [
    | none ↦ main ∷ others
    | some helper ↦
        let tag = helper_tag main.tag helper.kind in
        if same d ""
        then main ∷ others
        else record main { detour = some tag } ∷ retagged d tag others
  ]
]

-- The main tag, and what is created: outbounds, then endpoints.
pub record Plan : Type 0 where
  pub main_tag : String
  pub outbounds : List HotOptions
  pub endpoints : List HotOptions

unfoldable pub plan_of : String → List HotOptions → List HotOptions → Option Plan
plan_of tag_override (o ∷ os) endpoints =
    let main = overridden tag_override o in
    some (record { main_tag = main.tag; outbounds = paired main os; endpoints = endpoints })
plan_of tag_override [] (e ∷ es) =
    let main = overridden tag_override e in
    some (record { main_tag = main.tag; outbounds = []; endpoints = main ∷ es })
plan_of tag_override [] [] = none

unfoldable pub add_plan : String → Parsed → Option Plan
add_plan tag_override p =
    plan_of tag_override (select (λ o. not (is_system o.kind)) p.outbounds) p.endpoints

abbrev depends_on : String → List LiveOutbound → Bool
depends_on tag [] = false
depends_on tag (o ∷ os) = (not (same o.tag tag) && contains o.dependencies tag) || depends_on tag os

unfoldable pub outbound_tag_referenced : List LiveOutbound → List LiveOutbound → String → Bool
outbound_tag_referenced outbounds endpoints tag =
    depends_on tag outbounds || depends_on tag endpoints

abbrev pub helpers_of : Option LiveOutbound → String → List String
helpers_of none tag = []
helpers_of (some main) tag = select (λ dep. has_prefix dep (helper_mark tag)) main.dependencies

abbrev invalid_argument : String
invalid_argument = "invalid argument"

module _ {S : Type 0} (b : Box S) where
  -- The loops over what is to be created, up to the first error.
  unfoldable pub create_all :
      (S → HotOptions → S × Option String) → String → S → List HotOptions → S × Option String
  create_all create message s [] = (s, none)
  create_all create message s (o ∷ os) =
      let made = create s o in
      elim made.1 [
        | none ↦ create_all create message made.0 os
        | some e ↦ (made.0, some (join message o.tag))
      ]

  unfoldable pub add_members : String → S → List String → S × Option String
  add_members main_tag s [] = (s, none)
  add_members main_tag s (t ∷ ts) =
      let rest = add_members main_tag (b.add_member s t main_tag) ts in
      elim (b.outbound s t) [
        | none ↦ (s, some (join "add outbound: selector not found: " t))
        | some o ↦
            if is_selector o.role then rest else (s, some (join "add outbound: not a selector: " t))
      ]

  abbrev pub then_do {ℓ} : {A : Type ℓ} → S × Option String → (S → S × Outcome A) → S × Outcome A
  then_do (s, none) next = next s
  then_do (s, some e) next = (s, fail e)

  unfoldable pub created_all : Plan → S → S × Option String
  created_all p s =
      let outbounds = create_all b.create_outbound "add outbound: create " s p.outbounds in
      elim outbounds.1 [
        | none ↦
            create_all b.create_endpoint "add outbound: create endpoint " outbounds.0 p.endpoints
        | some e ↦ outbounds
      ]

  unfoldable pub add_planned : List String → Plan → S → S × Outcome String
  add_planned selector_tags p s = then_do (created_all p s) (λ s'. elim (b.outbound s' p.main_tag) [
    | none ↦ (s', fail (join "add outbound: created outbound vanished: " p.main_tag))
    | some created ↦ then_do (add_members p.main_tag s' selector_tags) (λ s''. (s'', ok p.main_tag))
  ])

  -- `AddOutbound` on a box; the reply has the tag.
  unfoldable pub add_outbound :
      Outcome Parsed → String → List String → Option S → Option S × Outcome String
  add_outbound parsed tag_override selector_tags none =
      (none, fail "add outbound: core not started")
  add_outbound panic tag_override selector_tags (some s) = (some s, panic)
  add_outbound (fail e) tag_override selector_tags (some s) =
      (some s, fail (join "add outbound: parse: " e))
  add_outbound (ok p) tag_override selector_tags (some s) = elim (add_plan tag_override p) [
    | none ↦ (some s, fail "add outbound: no usable outbound in content")
    | some plan ↦ let r = add_planned selector_tags plan s in (some r.0, r.1)
  ]

  unfoldable pub leave_selectors : String → List LiveOutbound → S → S
  leave_selectors tag [] s = s
  leave_selectors tag (o ∷ os) s =
      leave_selectors tag os (if is_selector o.role then b.remove_member s o.tag tag else s)

  abbrev pub or_endpoint : String → S × Removal → S × Removal
  or_endpoint tag (s, removed) = (s, removed)
  or_endpoint tag (s, invalid) = b.drop_endpoint s tag
  or_endpoint tag (s, refused e) = (s, refused e)

  unfoldable pub removed_main : S → String → S × Removal
  removed_main s tag = or_endpoint tag (b.drop_outbound s tag)

  -- A helper that nothing refers to any more.
  unfoldable pub remove_helper : S → String → S
  remove_helper s helper =
      if outbound_tag_referenced (b.outbounds s) (b.endpoints s) helper
      then s
      else (b.drop_outbound s helper).0

  unfoldable pub remove_helpers : S → List String → S
  remove_helpers s [] = s
  remove_helpers s (h ∷ hs) = remove_helpers (remove_helper s h) hs

  abbrev pub without_helpers : List String → S × Removal → Option S × CommandReply
  without_helpers helpers (s, removed) = (some (remove_helpers s helpers), done)
  without_helpers helpers (s, invalid) = (some s, failed invalid_argument)
  without_helpers helpers (s, refused e) = (some s, failed e)

  -- `RemoveOutbound` on a box.
  unfoldable pub remove_outbound : Option S → String → Option S × CommandReply
  remove_outbound none tag = (none, failed "remove outbound: core not started")
  remove_outbound (some s) tag =
      without_helpers (helpers_of (b.outbound s tag) tag)
        (removed_main (leave_selectors tag (b.outbounds s) s) tag)
