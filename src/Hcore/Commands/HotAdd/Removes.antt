-- ===== src/Hcore/Commands/HotAdd/Removes.antt =====
-- What `RemoveOutbound` takes out of the box.
use inhive_core.Prelude.{
  String, Bool, true, false, List, [], ◌∷◌, Option, none, some, ◌≡◌, ◌≢◌, refl, Bool-cases, inl,
  inr, has_prefix, select, if◌then◌else◌, ap, sym, ◌∙◌, All, if_both, false≢true,
}
use inhive_core.Hcore.Commands.{LiveOutbound, Box, Removal, removed, invalid, refused, is_selector}
use inhive_core.Hcore.Commands.HotAdd.{
  helper_mark, helpers_of, leave_selectors, removed_main, remove_helper, remove_helpers,
  remove_outbound, or_endpoint, without_helpers, outbound_tag_referenced,
}

abbrev pub is_loaded : Option LiveOutbound → Bool
is_loaded none = false
is_loaded (some o) = true

select-true : (p : String → Bool) (xs : List String) → All (λ x. p x ≡ true) (select p xs)
select-true p [] = tt
select-true p (x ∷ xs) = elim (Bool-cases (p x)) [
  | inl e ↦ rw (e) (e, select-true p xs)
  | inr e ↦ rw (e) (select-true p xs)
]

IsHelper : String → String → Type 0
IsHelper tag h = has_prefix h (helper_mark tag) ≡ true

helpers-IsHelper : (o : Option LiveOutbound) (tag : String) → All (IsHelper tag) (helpers_of o tag)
unfolding IsHelper
helpers-IsHelper none tag = tt
helpers-IsHelper (some o) tag = select-true (λ dep. has_prefix dep (helper_mark tag)) o.dependencies

module _ {S : Type 0} (b : Box S) where
  abbrev pub loaded : Option S → String → Bool
  loaded none t = false
  loaded (some s) t = is_loaded (b.outbound s t)

  module _
      (member_kept : (s : S) (group tag t : String)
        → loaded (some (b.remove_member s group tag)) t ≡ loaded (some s) t)
      (outbound_kept : (s : S) (tag t : String)
        → t ≢ tag
        → loaded (some (b.drop_outbound s tag).0) t ≡ loaded (some s) t)
      (endpoint_kept : (s : S) (tag t : String)
        → t ≢ tag
        → loaded (some (b.drop_endpoint s tag).0) t ≡ loaded (some s) t) where
    leave_selectors-loaded :
        (tag : String) (os : List LiveOutbound) (s : S) (t : String)
        → loaded (some (leave_selectors b tag os s)) t ≡ loaded (some s) t
    unfolding leave_selectors
    leave_selectors-loaded tag [] s t = refl
    leave_selectors-loaded tag (o ∷ os) s t =
        leave_selectors-loaded tag os
          (if is_selector o.role then b.remove_member s o.tag tag else s) t
        ∙ if_both (λ s'. loaded (some s') t ≡ loaded (some s) t) (is_selector o.role)
            (member_kept s o.tag tag t) refl

    or_endpoint-loaded :
        (tag t : String) (r : S × Removal)
        → t ≢ tag
        → loaded (some (or_endpoint b tag r).0) t ≡ loaded (some r.0) t
    or_endpoint-loaded tag t (s, removed) h = refl
    or_endpoint-loaded tag t (s, invalid) h = endpoint_kept s tag t h
    or_endpoint-loaded tag t (s, refused e) h = refl

    removed_main-loaded :
        (s : S) (tag t : String)
        → t ≢ tag
        → loaded (some (removed_main b s tag).0) t ≡ loaded (some s) t
    unfolding removed_main
    removed_main-loaded s tag t h =
        or_endpoint-loaded tag t (b.drop_outbound s tag) h ∙ outbound_kept s tag t h

    remove_helper-loaded :
        (s : S) (helper t : String)
        → t ≢ helper
        → loaded (some (remove_helper b s helper)) t ≡ loaded (some s) t
    unfolding remove_helper
    remove_helper-loaded s helper t h =
        if_both (λ s'. loaded (some s') t ≡ loaded (some s) t)
          (outbound_tag_referenced (b.outbounds s) (b.endpoints s) helper) refl
          (outbound_kept s helper t h)

    remove_helpers-loaded :
        (s : S) (hs : List String) (tag t : String)
        → All (IsHelper tag) hs
        → has_prefix t (helper_mark tag) ≡ false
        → loaded (some (remove_helpers b s hs)) t ≡ loaded (some s) t
    unfolding remove_helpers IsHelper
    remove_helpers-loaded s [] tag t h k = refl
    remove_helpers-loaded s (x ∷ hs) tag t h k =
        let other : t ≢ x =
          λ q. false≢true (sym k ∙ (ap (λ y. has_prefix y (helper_mark tag)) q ∙ h.0)) in
        remove_helpers-loaded (remove_helper b s x) hs tag t h.1 k
        ∙ remove_helper-loaded s x t other

    without_helpers-loaded :
        (helpers : List String) (r : S × Removal) (tag t : String)
        → All (IsHelper tag) helpers
        → has_prefix t (helper_mark tag) ≡ false
        → loaded (without_helpers b helpers r).0 t ≡ loaded (some r.0) t
    without_helpers-loaded helpers (s, removed) tag t h k =
        remove_helpers-loaded s helpers tag t h k
    without_helpers-loaded helpers (s, invalid) tag t h k = refl
    without_helpers-loaded helpers (s, refused e) tag t h k = refl

    -- If taking a member out of a selector, or one outbound or endpoint out of its manager, leaves what
    -- else is loaded, then `RemoveOutbound` leaves loaded, whether it fails or not, each outbound but
    -- the one with the tag and those named as its helpers.
    pub remove_outbound-loaded :
        (s : S) (tag t : String)
        → t ≢ tag
        → has_prefix t (helper_mark tag) ≡ false
        → loaded (remove_outbound b (some s) tag).0 t ≡ loaded (some s) t
    unfolding remove_outbound
    remove_outbound-loaded s tag t h k =
        let left = leave_selectors b tag (b.outbounds s) s in
        without_helpers-loaded (helpers_of (b.outbound s tag) tag) (removed_main b left tag) tag t
          (helpers-IsHelper (b.outbound s tag) tag) k
        ∙ (removed_main-loaded left tag t h ∙ leave_selectors-loaded tag (b.outbounds s) s t)
