-- ===== src/Config/Outbounds/Empty.antt =====
-- When `setOutbounds` has nothing to select.
use inhive_core.Prelude.{
  String, Bool, true, false, ◌&&◌, List, [], ◌∷◌, ◌++◌, ok, panic, ◌>>=◌, ◌≡◌, refl, ◌∙◌, ◌↔◌, ◌⊎◌,
  inl, inr, arith, All, has_part, if_case,
}
use inhive_core.Config.Tags.{predefined_outbound_tags}
use inhive_core.Config.SingBox.{Options, Outbound, Endpoint}
use inhive_core.Config.Settings.{InhiveOptions}
use inhive_core.Config.Env.{Env}
use inhive_core.Config.Helpers.{contains}
use inhive_core.Config.Outbounds.Patch.{is_psiphon}
use inhive_core.Config.Outbounds.Assemble.{
  Assembled, assembled, ends_of, make_groups, Groups, set_outbounds, Collected, Ends, is_dropped,
  plain_tags, visible, is_replaced, keep_outbound, keep_endpoint, collect_outbound,
  collect_outbounds, collect_endpoint, collect_endpoints, collected,
}

-- What the selector never offers: an outbound with a tag that is taken, of a kind that is dropped, or
-- marked as hidden.
abbrev pub IsUnlisted : Outbound → Type 0
IsUnlisted o =
    (contains predefined_outbound_tags o.tag ≡ true)
    ⊎ ((is_dropped o.outbound_type ≡ true)
        ⊎ ((contains plain_tags o.tag ≡ true) ⊎ (has_part o.tag "§hide§" ≡ true)))

-- The same of an endpoint; WARP may replace one.
abbrev pub IsUnlistedEnd : InhiveOptions → Endpoint → Type 0
IsUnlistedEnd opt e =
    (contains predefined_outbound_tags e.tag ≡ true)
    ⊎ ((is_replaced opt e.endpoint_type e.options ≡ true) ⊎ (has_part e.tag "§hide§" ≡ true))

visible-none :
    (tag : String) (tags : List String)
    → visible tag tags ≡ []
    → (tags ≡ []) × (has_part tag "§hide§" ≡ true)
visible-none tag tags =
    if_case (λ ts. ts ≡ [] → (tags ≡ []) × (has_part tag "§hide§" ≡ true)) (has_part tag "§hide§")
      tags (tags ++ tag ∷ []) (λ hidden e. (e, hidden)) (λ shown e. absurd (not_empty tags tag e))
  where
    not_empty : (xs : List String) (x : String) → (xs ++ x ∷ []) ≡ [] → ⊥
    not_empty [] x e = cc (e)
    not_empty (y ∷ ys) x e = cc (e)

module _ (opt : InhiveOptions) where
  -- An outbound after which the selector still offers nothing.
  collect_outbound-none :
      (c : Collected) (o : Outbound)
      → (collect_outbound opt c o).tags ≡ []
      → (c.tags ≡ []) × (IsUnlisted o ⊎ (is_psiphon o.outbound_type ≡ true))
  unfolding collect_outbound keep_outbound
  collect_outbound-none c o =
      let P : Collected → Type 0 =
        λ c'. c'.tags ≡ [] → (c.tags ≡ []) × (IsUnlisted o ⊎ (is_psiphon o.outbound_type ≡ true)) in
      if_case P (contains predefined_outbound_tags o.tag) c _ (λ e h. (h, inl (inl e)))
        (λ n.
          if_case P (is_dropped o.outbound_type) c _ (λ e h. (h, inl (inr (inl e))))
            (λ n'.
              if_case P (contains plain_tags o.tag) c _ (λ e h. (h, inl (inr (inr (inl e)))))
                (λ n''.
                  if_case P (is_psiphon o.outbound_type && c.has_psiphon) c _
                    (λ e h. (h, inr (ground (arith, e))))
                    (λ m h.
                      let none_left = visible-none o.tag c.tags h in
                      (none_left.0, inl (inr (inr (inr none_left.1))))))))

  collect_outbounds-none :
      (c : Collected) (os : List Outbound)
      → (collect_outbounds opt c os).tags ≡ []
      → (c.tags ≡ []) × All (λ o. IsUnlisted o ⊎ (is_psiphon o.outbound_type ≡ true)) os
  unfolding collect_outbounds
  collect_outbounds-none c [] h = (h, tt)
  collect_outbounds-none c (o ∷ os) h =
      let later = collect_outbounds-none (collect_outbound opt c o) os h in
      let now = collect_outbound-none c o later.0 in (now.0, (now.1, later.1))

  -- An outbound that is never offered leaves the tags.
  collect_outbound-unlisted :
      (c : Collected) (o : Outbound) → IsUnlisted o → (collect_outbound opt c o).tags ≡ c.tags
  unfolding collect_outbound keep_outbound
  collect_outbound-unlisted c o u =
      let P : Collected → Type 0 = λ c'. c'.tags ≡ c.tags in
      if_case P (contains predefined_outbound_tags o.tag) c _ (λ e. refl)
        (λ n.
          if_case P (is_dropped o.outbound_type) c _ (λ e. refl)
            (λ n'.
              if_case P (contains plain_tags o.tag) c _ (λ e. refl)
                (λ n''.
                  if_case P (is_psiphon o.outbound_type && c.has_psiphon) c _ (λ e. refl)
                    (λ m.
                      let hidden : has_part o.tag "§hide§" ≡ true = elim u [
                        | inl e ↦ cc (n, e)
                        | inr (inl e) ↦ cc (n', e)
                        | inr (inr (inl e)) ↦ cc (n'', e)
                        | inr (inr (inr e)) ↦ e
                      ] in
                      rw (hidden) refl))))

  collect_outbounds-unlisted :
      (c : Collected) (os : List Outbound)
      → All IsUnlisted os
      → (collect_outbounds opt c os).tags ≡ c.tags
  unfolding collect_outbounds
  collect_outbounds-unlisted c [] h = refl
  collect_outbounds-unlisted c (o ∷ os) h =
      collect_outbounds-unlisted (collect_outbound opt c o) os h.1
      ∙ collect_outbound-unlisted c o h.0

  module _ (env : Env) where
    collect_endpoint-none :
        (c : Ends) (e : Endpoint)
        → (collect_endpoint env opt c e).tags ≡ []
        → (c.tags ≡ []) × IsUnlistedEnd opt e
    unfolding collect_endpoint keep_endpoint
    collect_endpoint-none c e =
        let P : Ends → Type 0 = λ c'. c'.tags ≡ [] → (c.tags ≡ []) × IsUnlistedEnd opt e in
        if_case P (contains predefined_outbound_tags e.tag) c _ (λ p h. (h, inl p))
          (λ n.
            if_case P (is_replaced opt e.endpoint_type e.options) c _ (λ p h. (h, inr (inl p)))
              (λ n' h.
                let none_left = visible-none e.tag c.tags h in
                (none_left.0, inr (inr none_left.1))))

    collect_endpoints-none :
        (c : Ends) (es : List Endpoint)
        → (collect_endpoints env opt c es).tags ≡ []
        → (c.tags ≡ []) × All (IsUnlistedEnd opt) es
    unfolding collect_endpoints
    collect_endpoints-none c [] h = (h, tt)
    collect_endpoints-none c (e ∷ es) h =
        let later = collect_endpoints-none (collect_endpoint env opt c e) es h in
        let now = collect_endpoint-none c e later.0 in (now.0, (now.1, later.1))

    collect_endpoint-unlisted :
        (c : Ends) (e : Endpoint)
        → IsUnlistedEnd opt e
        → (collect_endpoint env opt c e).tags ≡ c.tags
    unfolding collect_endpoint keep_endpoint
    collect_endpoint-unlisted c e u =
        let P : Ends → Type 0 = λ c'. c'.tags ≡ c.tags in
        if_case P (contains predefined_outbound_tags e.tag) c _ (λ p. refl)
          (λ n.
            if_case P (is_replaced opt e.endpoint_type e.options) c _ (λ p. refl)
              (λ n'.
                let hidden : has_part e.tag "§hide§" ≡ true = elim u [
                  | inl p ↦ cc (n, p)
                  | inr (inl p) ↦ cc (n', p)
                  | inr (inr p) ↦ p
                ] in
                rw (hidden) refl))

    collect_endpoints-unlisted :
        (c : Ends) (es : List Endpoint)
        → All (IsUnlistedEnd opt) es
        → (collect_endpoints env opt c es).tags ≡ c.tags
    unfolding collect_endpoints
    collect_endpoints-unlisted c [] h = refl
    collect_endpoints-unlisted c (e ∷ es) h =
        collect_endpoints-unlisted (collect_endpoint env opt c e) es h.1
        ∙ collect_endpoint-unlisted c e h.0

    ends_of-none :
        (input : Options)
        → (ends_of env opt input).tags ≡ []
        → All (λ o. IsUnlisted o ⊎ (is_psiphon o.outbound_type ≡ true)) input.outbounds
          × All (IsUnlistedEnd opt) input.endpoints
    unfolding ends_of collected
    ends_of-none input h =
        let ends = collect_endpoints-none _ input.endpoints h in
        ((collect_outbounds-none _ input.outbounds ends.0).1, ends.1)

    ends_of-unlisted :
        (input : Options)
        → All IsUnlisted input.outbounds
        → All (IsUnlistedEnd opt) input.endpoints
        → (ends_of env opt input).tags ≡ []
    unfolding ends_of collected
    ends_of-unlisted input h k =
        collect_endpoints-unlisted _ input.endpoints k
        ∙ collect_outbounds-unlisted _ input.outbounds h

made_or_panic :
    (warped : Bool) (strategy : String) (tags : List String) (f : Groups → Assembled)
    → ((make_groups warped strategy tags >>= λ g. ok (f g)) ≡ panic) ↔ (tags ≡ [])
unfolding make_groups
made_or_panic warped strategy [] f = (λ e. refl, λ e. refl)
made_or_panic warped strategy (tag ∷ []) f = (λ e. cc, λ e. cc)
made_or_panic true strategy (tag ∷ more ∷ rest) f = (λ e. cc, λ e. cc)
made_or_panic false strategy (tag ∷ more ∷ rest) f = (λ e. cc, λ e. cc)

never_fails :
    (warped : Bool) (strategy : String) (tags : List String) (f : Groups → Assembled)
    → let made = make_groups warped strategy tags >>= λ g. ok (f g) in
      (made ≡ panic) ⊎ ((a : Assembled) × (made ≡ ok a))
unfolding make_groups
never_fails warped strategy [] f = inl refl
never_fails warped strategy (tag ∷ []) f = inr (_, refl)
never_fails true strategy (tag ∷ more ∷ rest) f = inr (_, refl)
never_fails false strategy (tag ∷ more ∷ rest) f = inr (_, refl)

-- On an input whose outbounds and endpoints are all unlisted (with a tag that is taken, of a kind that is
-- dropped or replaced, or hidden), `setOutbounds` panics. Where it panics, each endpoint of the input is
-- unlisted, and each outbound is unlisted or of Psiphon. It returns a result otherwise, and never an error.
pub set_outbounds-panic :
    (env : Env) (options input : Options) (opt : InhiveOptions)
    → let made = set_outbounds env options input opt in
      ((All IsUnlisted input.outbounds × All (IsUnlistedEnd opt) input.endpoints) → made ≡ panic)
      × (made ≡ panic
          → All (λ o. IsUnlisted o ⊎ (is_psiphon o.outbound_type ≡ true)) input.outbounds
            × All (IsUnlistedEnd opt) input.endpoints)
      × ((made ≡ panic) ⊎ ((a : Assembled) × (made ≡ ok a)))
unfolding set_outbounds
set_outbounds-panic env options input opt =
    let tags = (ends_of env opt input).tags in
    let both =
      made_or_panic opt.warp.enable_warp opt.balancer_strategy tags
        (assembled env options input opt) in
    (
      (λ h. both.1 (ends_of-unlisted opt env input h.0 h.1)),
      (λ e. ends_of-none opt env input (both.0 e)),
      never_fails opt.warp.enable_warp opt.balancer_strategy tags (assembled env options input opt),
    )
