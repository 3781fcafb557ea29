-- ===== src/Config/Outbounds/Closed.antt =====
-- The groups that `setOutbounds` adds offer outbounds that are there, and the tags that the rest of
-- the builder relies on are there too.
use inhive_core.Prelude.{
  String, Bool, true, false, List, [], ◌∷◌, ◌++◌, ok, IfOk, IfOk->>=, IfOk-use, ◌≡◌, refl, sym, ap,
  subst, append_assoc, ◌∙◌, inl, inr, All, All-map,
}
use inhive_core.Config.Tags.{outbound_url_test_tag, outbound_round_robin_tag}
use inhive_core.Config.SingBox.{Outbound, OutboundOptions, balancer_group, selector_group, Options}
use inhive_core.Config.Settings.{InhiveOptions}
use inhive_core.Config.Env.{Env}
use inhive_core.Config.Helpers.Members.{
  IsMember, Within, Within-left, Within-right, member_here, member_there, member_left, member_right,
  member-append, Within-self,
}
use inhive_core.Config.Outbounds.Assemble.{
  make_groups, Groups, selector_of, direct_outbounds, Assembled, collected, ends_of, warp_endpoints,
  assembled, set_outbounds,
}
use inhive_core.Config.Outbounds.Tags.{
  outbound_tags, endpoint_tags, target_tags, outbound_tags-append, collect_outbounds-Offers, Covers,
  Offers, collect_endpoints-Covers,
}

abbrev pub Members : List String → OutboundOptions → Type 0
Members targets (balancer_group b) = Within b.outbounds targets
Members targets (selector_group s) = Within s.outbounds targets
Members targets _ = Unit

abbrev pub IsClosedGroup : List String → Outbound → Type 0
IsClosedGroup targets o = Members targets o.options

Members-mono :
    (xs ys : List String)
    → ((t : String) → IsMember xs t → IsMember ys t)
    → (o : OutboundOptions) → Members xs o
    → Members ys o
Members-mono xs ys f (balancer_group b) h = All-map f b.outbounds h
Members-mono xs ys f (selector_group s) h = All-map f s.outbounds h
Members-mono xs ys f (OutboundOptions.proxy p) h = tt
Members-mono xs ys f OutboundOptions.direct_dial h = tt

abbrev AreClosed : List String → Groups → Type 0
AreClosed targets g =
    Within g.offered (outbound_tags g.before ++ targets) × All (IsClosedGroup targets) g.before

make_groups-AreClosed :
    (warped : Bool) (strategy : String) (tags targets : List String)
    → Within tags targets
    → IfOk (AreClosed targets) (make_groups warped strategy tags)
unfolding make_groups
make_groups-AreClosed warped strategy [] targets w = tt
make_groups-AreClosed warped strategy (tag ∷ []) targets w = (w, tt)
make_groups-AreClosed true strategy (tag ∷ more ∷ rest) targets w = (
  (
    member_here outbound_url_test_tag targets,
    Within-right (tag ∷ more ∷ rest) (outbound_url_test_tag ∷ []) targets w,
  ),
  (w, tt),
)
make_groups-AreClosed false strategy (tag ∷ more ∷ rest) targets w =
    let both = outbound_round_robin_tag ∷ outbound_url_test_tag ∷ [] in
    (
      (
        member_there outbound_round_robin_tag outbound_url_test_tag
            (outbound_url_test_tag ∷ targets) (member_here outbound_url_test_tag targets),
        (
          member_here outbound_round_robin_tag (outbound_url_test_tag ∷ targets),
          Within-right (tag ∷ more ∷ rest) both targets w,
        ),
      ),
      (w, (w, tt)),
    )

-- A part of the final list of targets.
spread :
    (sel : Outbound) (before kept dir : List Outbound) (ends : List String) (t : String)
    → IsMember (outbound_tags before ++ (outbound_tags kept ++ ends)) t
    → IsMember (outbound_tags ((sel ∷ (before ++ kept)) ++ dir) ++ ends) t
spread sel before kept dir ends t h =
    member_there sel.tag t (outbound_tags ((before ++ kept) ++ dir) ++ ends) (
      rw (outbound_tags-append (before ++ kept) dir, outbound_tags-append before kept)
        (elim (member-append (outbound_tags before) (outbound_tags kept ++ ends) t h) [
          | inl b ↦ member_left _ ends t (
              member_left _ (outbound_tags dir) t
                (member_left (outbound_tags before) (outbound_tags kept) t b))
          | inr r ↦ elim (member-append (outbound_tags kept) ends t r) [
            | inl k ↦ member_left _ ends t (
                member_left _ (outbound_tags dir) t
                  (member_right (outbound_tags before) (outbound_tags kept) t k))
            | inr e ↦ member_right _ ends t e
          ]
        ]))

-- The outbounds are the selector, the balancers, the outbounds that are kept of the input, and the direct
-- ones.
abbrev pub HasGroups : InhiveOptions → Options → Assembled → Type 0
HasGroups opt input a =
    (g : Groups) × (a.options.outbounds
      ≡ selector_of g ∷ (g.before ++ ((collected opt input).outbounds ++ direct_outbounds)))
    × Within g.offered (target_tags a.options)
    × All (IsClosedGroup (target_tags a.options)) g.before

HasGroups-made :
    (opt : InhiveOptions) (input : Options) (a : Assembled) (g : Groups)
    → a.options.outbounds
      ≡ (selector_of g ∷ (g.before ++ (collected opt input).outbounds)) ++ direct_outbounds
    → AreClosed
        (outbound_tags (collected opt input).outbounds ++ endpoint_tags a.options.endpoints)
        g
    → HasGroups opt input a
HasGroups-made opt input a g e h =
    let kept = (collected opt input).outbounds in
    let ends = endpoint_tags a.options.endpoints in
    let there =
      λ (t : String) (m : IsMember (outbound_tags g.before ++ (outbound_tags kept ++ ends)) t).
        subst (λ os. IsMember (outbound_tags os ++ ends) t) (sym e)
          (spread (selector_of g) g.before kept direct_outbounds ends t m) in
    (
      g,
      e ∙ ap (◌∷◌ (selector_of g)) (append_assoc g.before kept direct_outbounds),
      All-map there g.offered h.0,
      All-map
          (λ o.
            Members-mono (outbound_tags kept ++ ends) (target_tags a.options)
              (λ t m.
                there t (member_right (outbound_tags g.before) (outbound_tags kept ++ ends) t m))
              o.options)
          g.before h.1,
    )

collected-Offers : (opt : InhiveOptions) (input : Options) → Offers (collected opt input)
unfolding collected
collected-Offers opt input = collect_outbounds-Offers opt _ input.outbounds tt

pub ends_of-Covers :
    (env : Env) (opt : InhiveOptions) (input : Options)
    → Covers
        (outbound_tags (collected opt input).outbounds)
        (endpoint_tags (warp_endpoints env opt))
        (ends_of env opt input)
unfolding ends_of
ends_of-Covers env opt input = collect_endpoints-Covers env opt _ _ _ input.endpoints (record {
  offered =
      Within-left (collected opt input).tags (outbound_tags (collected opt input).outbounds)
        (endpoint_tags (warp_endpoints env opt)) (collected-Offers opt input);
  kept = Within-self (endpoint_tags (warp_endpoints env opt));
})

set_outbounds-HasGroups :
    (env : Env) (options input : Options) (opt : InhiveOptions)
    → IfOk (HasGroups opt input) (set_outbounds env options input opt)
unfolding set_outbounds
set_outbounds-HasGroups env options input opt =
    let kept = (collected opt input).outbounds in
    let ends = ends_of env opt input in
    IfOk->>= (AreClosed (outbound_tags kept ++ endpoint_tags ends.endpoints)) (HasGroups opt input)
      (make_groups opt.warp.enable_warp opt.balancer_strategy ends.tags)
      (λ g. ok (assembled env options input opt g))
      (make_groups-AreClosed opt.warp.enable_warp opt.balancer_strategy ends.tags _
        (ends_of-Covers env opt input).offered)
      (λ g h.
        HasGroups-made opt input (assembled env options input opt g) g (unfold assembled in refl)
          (unfold assembled in h))

-- The outbounds that `setOutbounds` leaves are the selector, balancers, the outbounds that it keeps of the
-- input, and the two direct ones, in this order; the selector and each of these balancers name only
-- outbounds and endpoints of the result.
pub set_outbounds-closed :
    (env : Env) (options input : Options) (opt : InhiveOptions) {a : Assembled}
    → set_outbounds env options input opt ≡ ok a
    → HasGroups opt input a
set_outbounds-closed env options input opt h =
    IfOk-use (HasGroups opt input) (set_outbounds-HasGroups env options input opt) h
