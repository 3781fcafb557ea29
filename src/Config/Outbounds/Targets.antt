-- ===== src/Config/Outbounds/Targets.antt =====
-- The outbounds that the routes and the DNS servers go through are there after `setOutbounds`.
use inhive_core.Prelude.{
  String, List, [], ◌∷◌, ◌++◌, ok, IfOk, IfOk->>=, IfOk_true, ◌≡◌, refl, subst, ◌⊎◌, inl, inr,
  arith,
}
use inhive_core.Config.Tags.{outbound_direct_tag, outbound_select_tag, outbound_direct_fragment_tag}
use inhive_core.Config.SingBox.{Outbound, Options}
use inhive_core.Config.Settings.{InhiveOptions}
use inhive_core.Config.Env.{Env}
use inhive_core.Config.Helpers.{contains}
use inhive_core.Config.Helpers.Members.{IsMember, Within, member_here, member_left, member_right}
use inhive_core.Config.Outbounds.Assemble.{
  Groups, selector_of, direct_outbounds, Assembled, collected, ends_of, warp_endpoints,
  main_detour_of, assembled, set_outbounds, warp_endpoint,
}
use inhive_core.Config.Outbounds.Tags.{
  outbound_tags, endpoint_tags, target_tags, outbound_tags-append,
}
use inhive_core.Config.Warp.{patch_warp}
use inhive_core.Config.Outbounds.Closed.{ends_of-Covers}

-- The outbounds that the routes and the DNS servers go through.
pub record HasTargets (main_detour : String) (options : Options) : Type 0 where
  pub main : IsMember (target_tags options) main_detour
  pub select : IsMember (target_tags options) outbound_select_tag
  pub direct : IsMember (target_tags options) outbound_direct_tag
  pub fragment : IsMember (target_tags options) outbound_direct_fragment_tag

direct_member :
    (os : List Outbound) (ends : List String) (t : String)
    → IsMember (outbound_tags direct_outbounds) t
    → IsMember (outbound_tags (os ++ direct_outbounds) ++ ends) t
direct_member os ends t h =
    rw (outbound_tags-append os) (member_left _ ends t (member_right (outbound_tags os) _ t h))

warp_endpoints-main :
    (env : Env) (opt : InhiveOptions)
    → (main_detour_of opt ≡ outbound_select_tag)
      ⊎ (endpoint_tags (warp_endpoints env opt) ≡ main_detour_of opt ∷ [])
unfolding warp_endpoint patch_warp
warp_endpoints-main env opt = ground arith

assembled-main :
    (env : Env) (options input : Options) (opt : InhiveOptions) (g : Groups)
    → IsMember (target_tags (assembled env options input opt g).options) (main_detour_of opt)
assembled-main env options input opt g =
    let a = assembled env options input opt g in
    let ends = endpoint_tags (ends_of env opt input).endpoints in
    elim (warp_endpoints-main env opt) [
      | inl plain ↦ rw plain (unfold assembled in member_here outbound_select_tag _)
      | inr warped ↦ member_right (outbound_tags a.options.outbounds) _ (main_detour_of opt) (
          unfold assembled in
          (subst (λ ts. Within ts ends) warped (ends_of-Covers env opt input).kept).0)
    ]

assembled-HasTargets :
    (env : Env) (options input : Options) (opt : InhiveOptions) (g : Groups)
    → HasTargets (main_detour_of opt) (assembled env options input opt g).options
unfolding assembled contains
assembled-HasTargets env options input opt g =
    let first = selector_of g ∷ (g.before ++ (collected opt input).outbounds) in
    let ends = endpoint_tags (ends_of env opt input).endpoints in
    record {
      main = assembled-main env options input opt g;
      select = member_here outbound_select_tag (
          outbound_tags ((g.before ++ (collected opt input).outbounds) ++ direct_outbounds)
          ++ ends);
      direct = direct_member first ends outbound_direct_tag refl;
      fragment = direct_member first ends outbound_direct_fragment_tag refl;
    }

-- What a successful `setOutbounds` gives the rest of the builder.
pub record IsReady (options : Options) (opt : InhiveOptions) (a : Assembled) : Type 0 where
  pub has_targets : HasTargets a.main_detour a.options
  pub fake_kept : a.settings.enable_fake_dns ≡ opt.enable_fake_dns
  pub inbounds_kept : a.options.inbounds ≡ options.inbounds

pub set_outbounds-IsReady :
    (env : Env) (options input : Options) (opt : InhiveOptions)
    → IfOk (IsReady options opt) (set_outbounds env options input opt)
unfolding set_outbounds
set_outbounds-IsReady env options input opt =
    IfOk->>= (λ g. Unit {0}) (IsReady options opt) _ (λ g. ok (assembled env options input opt g))
      (IfOk_true _)
      (λ g h. record {
        has_targets = unfold assembled in assembled-HasTargets env options input opt g;
        fake_kept = unfold assembled in refl;
        inbounds_kept = unfold assembled in refl;
      })
