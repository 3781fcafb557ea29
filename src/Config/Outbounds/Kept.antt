-- ===== src/Config/Outbounds/Kept.antt =====
-- Which outbounds `setOutbounds` keeps, what it does to them, and what its selector starts with.
use inhive_core.Prelude.{
  ℕ, ◌+◌, ◌≤◌, String, Bool, true, false, ◌&&◌, ◌||◌, List, [], ◌∷◌, ◌++◌, ok, IfOk, IfOk-use, ◌≡◌,
  ◌≢◌, refl, sym, ap, subst, ◌∙◌, inl, inr, arith, All, All-append, same, has_part, if◌then◌else◌,
  same-ne,
}
use inhive_core.Config.Tags.{predefined_outbound_tags}
use inhive_core.Config.SingBox.{Outbound, OutboundType, proxy, Proxy, by_pointer, Options}
use inhive_core.Config.Settings.{InhiveOptions}
use inhive_core.Config.Helpers.{contains}
use inhive_core.Config.Helpers.Members.{IsMember}
use inhive_core.Config.Outbounds.Patch.{
  patch_outbound, patch_proxy, patch_proxy_options, patch_warp_from_config, is_psiphon,
}
use inhive_core.Config.Outbounds.Assemble.{
  Collected, collect_outbound, collect_outbounds, keep_outbound, collected, make_groups, Groups,
  any_default,
}
use inhive_core.Config.Outbounds.Tags.{collect_outbound-cases}

-- No tag of `PredefinedOutboundTags`, and no more than one Psiphon outbound.
unfoldable pub count_psiphon : List Outbound → ℕ
count_psiphon [] = 0
count_psiphon (o ∷ os) = (if is_psiphon o.outbound_type then 1 else 0) + count_psiphon os

abbrev pub IsForeign : Outbound → Type 0
IsForeign o = contains predefined_outbound_tags o.tag ≡ false

pub record IsSorted (c : Collected) : Type 0 where
  pub foreign : All IsForeign c.outbounds
  pub psiphons : count_psiphon c.outbounds ≡ (if c.has_psiphon then 1 else 0)

count_psiphon-append :
    (xs ys : List Outbound) → count_psiphon (xs ++ ys) ≡ count_psiphon xs + count_psiphon ys
unfolding count_psiphon
count_psiphon-append [] ys = omega arith
count_psiphon-append (x ∷ xs) ys = omega (arith, count_psiphon-append xs ys)

patched_same :
    (out : Outbound) (opt : InhiveOptions)
    → let p = patch_warp_from_config (patch_outbound out opt) opt in
      (p.tag ≡ out.tag) × (p.outbound_type ≡ out.outbound_type)
unfolding patch_warp_from_config patch_outbound
patched_same out opt = ground arith

one_more :
    (new patched old : Bool) (n : ℕ)
    → patched ≡ new
    → (new && old) ≡ false
    → n ≡ (if old then 1 else 0)
    → n + ((if patched then 1 else 0) + 0) ≡ (if old || new then 1 else 0)
one_more new patched old n e p h = ground arith

at_most_one : (b : Bool) (n : ℕ) → n ≡ (if b then 1 else 0) → n ≤ 1
at_most_one b n h = ground arith

keep_outbound-IsSorted :
    (opt : InhiveOptions) (c : Collected) (out : Outbound)
    → contains predefined_outbound_tags out.tag ≡ false
    → (is_psiphon out.outbound_type && c.has_psiphon) ≡ false
    → IsSorted c
    → IsSorted (keep_outbound opt c out)
unfolding keep_outbound count_psiphon
keep_outbound-IsSorted opt c out f p s =
    let new = patch_warp_from_config (patch_outbound out opt) opt in
    let same = patched_same out opt in
    record {
      foreign = All-append IsForeign c.outbounds (new ∷ []) s.foreign (rw same.0 f, tt);
      psiphons =
          count_psiphon-append c.outbounds (new ∷ [])
          ∙ one_more (is_psiphon out.outbound_type) (is_psiphon new.outbound_type) c.has_psiphon _
              (ap is_psiphon same.1) p s.psiphons;
    }

collect_outbound-IsSorted :
    (opt : InhiveOptions) (c : Collected) (out : Outbound)
    → IsSorted c
    → IsSorted (collect_outbound opt c out)
collect_outbound-IsSorted opt c out s = elim (collect_outbound-cases opt c out) [
  | inl same ↦ rw same s
  | inr (kept, f, p) ↦ rw kept (keep_outbound-IsSorted opt c out f p s)
]

collect_outbounds-IsSorted :
    (opt : InhiveOptions) (c : Collected) (outs : List Outbound)
    → IsSorted c
    → IsSorted (collect_outbounds opt c outs)
unfolding collect_outbounds
collect_outbounds-IsSorted opt c [] s = s
collect_outbounds-IsSorted opt c (out ∷ outs) s =
    collect_outbounds-IsSorted opt (collect_outbound opt c out) outs
      (collect_outbound-IsSorted opt c out s)

-- The outbounds taken from any input have no tag of the list `PredefinedOutboundTags`, and one Psiphon
-- outbound at the most.
pub collected-IsForeign :
    (opt : InhiveOptions) (input : Options)
    → All IsForeign (collected opt input).outbounds
      × (count_psiphon (collected opt input).outbounds ≤ 1)
unfolding collected count_psiphon
collected-IsForeign opt input =
    let s =
      collect_outbounds-IsSorted opt (record { outbounds = []; tags = []; has_psiphon = false })
        input.outbounds (record { foreign = tt; psiphons = refl }) in
    (s.foreign, at_most_one _ _ s.psiphons)

patch_proxy-pointer :
    (mixed : Bool) (kind : OutboundType) (p : Proxy)
    → p.boxing ≡ by_pointer
    → patch_proxy mixed kind p ≡ p
unfolding patch_proxy
patch_proxy-pointer mixed kind p b = ground arith

-- The TLS tricks change no proxy outbound whose options stand behind a pointer.
pub patch_outbound-pointer :
    (out : Outbound) (opt : InhiveOptions) (p : Proxy)
    → out.options ≡ proxy p
    → p.boxing ≡ by_pointer
    → patch_outbound out opt ≡ out
unfolding patch_outbound
patch_outbound-pointer out opt p e b =
    ap (λ o. record out { options = o })
      (subst (λ o. patch_proxy_options opt.mixed_sni_case out.outbound_type o ≡ o) (sym e)
        (ap proxy (patch_proxy-pointer opt.mixed_sni_case out.outbound_type p b)))

offered :
    (warped : Bool) (strategy tag more : String) (rest : List String)
    → IfOk (λ g. IsMember g.offered g.default) (make_groups warped strategy (tag ∷ more ∷ rest))
unfolding make_groups contains
offered true strategy tag more rest = refl
offered false strategy tag more rest = refl

lost :
    (warped : Bool) (strategy tag : String)
    → has_part tag "§default§" ≡ true
    → tag ≢ "§default§"
    → IfOk (λ g. contains g.offered g.default ≡ false) (make_groups warped strategy (tag ∷ []))
unfolding make_groups any_default contains
lost warped strategy tag m ne = rw m (rw (same-ne tag "§default§" ne))

-- With two tags or more, the default of the selector is one of the tags that it offers.
pub make_groups-default :
    (warped : Bool) (strategy tag more : String) (rest : List String) {g : Groups}
    → make_groups warped strategy (tag ∷ more ∷ rest) ≡ ok g
    → IsMember g.offered g.default
make_groups-default warped strategy tag more rest h =
    IfOk-use (λ g. IsMember g.offered g.default) (offered warped strategy tag more rest) h

-- A single tag that contains the mark of the default, and is not the mark alone, leaves the
-- selector with a default that it does not offer.
pub make_groups-lost_default :
    (warped : Bool) (strategy tag : String) {g : Groups}
    → has_part tag "§default§" ≡ true
    → tag ≢ "§default§"
    → make_groups warped strategy (tag ∷ []) ≡ ok g
    → contains g.offered g.default ≡ false
make_groups-lost_default warped strategy tag m ne h =
    IfOk-use (λ g. contains g.offered g.default ≡ false) (lost warped strategy tag m ne) h
