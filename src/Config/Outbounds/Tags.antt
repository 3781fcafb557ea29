-- ===== src/Config/Outbounds/Tags.antt =====
-- The tags that `setOutbounds` gives out, and the groups that name them.
use inhive_core.Prelude.{
  String, false, ◌&&◌, List, [], ◌∷◌, ◌++◌, ◌≡◌, refl, append_assoc, ◌⊎◌, inl, inr, arith,
  All-append, if_both,
}
use inhive_core.Config.Tags.{predefined_outbound_tags}
use inhive_core.Config.SingBox.{Outbound, Endpoint, Options}
use inhive_core.Config.Settings.{InhiveOptions}
use inhive_core.Config.Env.{Env}
use inhive_core.Config.Helpers.{contains}
use inhive_core.Config.Helpers.Members.{Within, Within-left, member_here, member_right}
use inhive_core.Config.Outbounds.Patch.{patch_outbound, patch_warp_from_config, is_psiphon}
use inhive_core.Config.Outbounds.Assemble.{
  Collected, collect_outbound, collect_outbounds, keep_outbound, keep_endpoint, visible, Ends,
  collect_endpoint, collect_endpoints,
}
use inhive_core.Config.Warp.{patch_warp}

abbrev pub outbound_tags : List Outbound → List String
outbound_tags [] = []
outbound_tags (o ∷ os) = o.tag ∷ outbound_tags os

abbrev pub endpoint_tags : List Endpoint → List String
endpoint_tags [] = []
endpoint_tags (e ∷ es) = e.tag ∷ endpoint_tags es

-- What a rule, a detour or a group may name.
abbrev pub target_tags : Options → List String
target_tags o = outbound_tags o.outbounds ++ endpoint_tags o.endpoints

pub outbound_tags-append :
    (xs ys : List Outbound) → outbound_tags (xs ++ ys) ≡ outbound_tags xs ++ outbound_tags ys
outbound_tags-append [] ys = refl
outbound_tags-append (x ∷ xs) ys = rw (outbound_tags-append xs ys)

endpoint_tags-append :
    (xs ys : List Endpoint) → endpoint_tags (xs ++ ys) ≡ endpoint_tags xs ++ endpoint_tags ys
endpoint_tags-append [] ys = refl
endpoint_tags-append (x ∷ xs) ys = rw (endpoint_tags-append xs ys)

Within-visible :
    (tag : String) (tags xs : List String)
    → Within tags xs
    → Within (visible tag tags) (xs ++ tag ∷ [])
Within-visible tag tags xs h =
    if_both (λ ts. Within ts (xs ++ tag ∷ [])) _ (Within-left tags xs (tag ∷ []) h)
      (All-append _ tags (tag ∷ []) (Within-left tags xs (tag ∷ []) h)
        (member_right xs (tag ∷ []) tag (member_here tag []), tt))

patched-tag :
    (out : Outbound) (opt : InhiveOptions)
    → (patch_warp_from_config (patch_outbound out opt) opt).tag ≡ out.tag
unfolding patch_warp_from_config patch_outbound
patched-tag out opt = ground arith

-- A round keeps an outbound that no guard skips, or changes nothing.
pub collect_outbound-cases :
    (opt : InhiveOptions) (c : Collected) (out : Outbound)
    → (collect_outbound opt c out ≡ c)
      ⊎ ((collect_outbound opt c out ≡ keep_outbound opt c out)
          × (contains predefined_outbound_tags out.tag ≡ false)
          × ((is_psiphon out.outbound_type && c.has_psiphon) ≡ false))
unfolding collect_outbound
collect_outbound-cases opt c out = ground arith

collect_endpoint-cases :
    (env : Env) (opt : InhiveOptions) (e : Ends) (end : Endpoint)
    → (collect_endpoint env opt e end ≡ e)
      ⊎ (collect_endpoint env opt e end ≡ keep_endpoint env opt e end)
unfolding collect_endpoint
collect_endpoint-cases env opt e end = ground arith

abbrev pub Offers : Collected → Type 0
Offers c = Within c.tags (outbound_tags c.outbounds)

keep_outbound-Offers :
    (opt : InhiveOptions) (c : Collected) (out : Outbound)
    → Offers c
    → Offers (keep_outbound opt c out)
unfolding keep_outbound
keep_outbound-Offers opt c out h =
    rw (outbound_tags-append c.outbounds)
      (rw (patched-tag out opt) (Within-visible out.tag c.tags (outbound_tags c.outbounds) h))

collect_outbound-Offers :
    (opt : InhiveOptions) (c : Collected) (out : Outbound)
    → Offers c
    → Offers (collect_outbound opt c out)
collect_outbound-Offers opt c out h = elim (collect_outbound-cases opt c out) [
  | inl same ↦ rw same h
  | inr (kept, _, _) ↦ rw kept (keep_outbound-Offers opt c out h)
]

pub collect_outbounds-Offers :
    (opt : InhiveOptions) (c : Collected) (outs : List Outbound)
    → Offers c
    → Offers (collect_outbounds opt c outs)
unfolding collect_outbounds
collect_outbounds-Offers opt c [] h = h
collect_outbounds-Offers opt c (out ∷ outs) h =
    collect_outbounds-Offers opt (collect_outbound opt c out) outs
      (collect_outbound-Offers opt c out h)

-- The tags offered are those of `known` outbounds or of the endpoints so far, and `first` stays.
pub record Covers (known : List String) (first : List String) (e : Ends) : Type 0 where
  pub offered : Within e.tags (known ++ endpoint_tags e.endpoints)
  pub kept : Within first (endpoint_tags e.endpoints)

keep_endpoint-Covers :
    (env : Env) (opt : InhiveOptions) (known first : List String) (e : Ends) (end : Endpoint)
    → Covers known first e
    → Covers known first (keep_endpoint env opt e end)
unfolding keep_endpoint patch_warp
keep_endpoint-Covers env opt known first e end h = record {
  offered = rw (endpoint_tags-append e.endpoints) (
      rw (← append_assoc known)
        (Within-visible end.tag e.tags (known ++ endpoint_tags e.endpoints) h.offered));
  kept =
      rw (endpoint_tags-append e.endpoints)
        (Within-left first (endpoint_tags e.endpoints) (end.tag ∷ []) h.kept);
}

collect_endpoint-Covers :
    (env : Env) (opt : InhiveOptions) (known first : List String) (e : Ends) (end : Endpoint)
    → Covers known first e
    → Covers known first (collect_endpoint env opt e end)
collect_endpoint-Covers env opt known first e end h = elim (collect_endpoint-cases env opt e end) [
  | inl same ↦ rw same h
  | inr kept ↦ rw kept (keep_endpoint-Covers env opt known first e end h)
]

pub collect_endpoints-Covers :
    (env : Env) (opt : InhiveOptions) (known first : List String) (e : Ends) (ends : List Endpoint)
    → Covers known first e
    → Covers known first (collect_endpoints env opt e ends)
unfolding collect_endpoints
collect_endpoints-Covers env opt known first e [] h = h
collect_endpoints-Covers env opt known first e (end ∷ ends) h =
    collect_endpoints-Covers env opt known first (collect_endpoint env opt e end) ends
      (collect_endpoint-Covers env opt known first e end h)
