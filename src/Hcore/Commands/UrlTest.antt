-- ===== src/Hcore/Commands/UrlTest.antt =====
-- The calls of `UrlTest` and `UrlTestActive`, which call each other.
use inhive_core.Prelude.{
  ℕ, suc, String, Option, none, some, ◌≡◌, ◌≢◌, refl, ◌⊎◌, inl, inr, Option-cases, Bool-cases, same,
  join, apart, same-ne,
}
use inhive_core.Config.Tags.{outbound_select_tag}
use inhive_core.Hcore.Commands.{
  Box, LiveOutbound, CommandReply, done, failed, group_now, url_test, url_test_active, inner_now,
  test_tag,
}

module _ {S : Type 0} (b : Box S) where
  -- A test has been made of a tag that is not empty, or nothing was changed.
  abbrev pub Tested : Option S → Option S × CommandReply → Type 0
  Tested s r =
      (r.0 ≡ s)
      ⊎ ((box : S) × (tag : String) × (s ≡ some box)
          × (tag ≢ "")
          × (r.0 ≡ some (b.test_now box tag)))

  -- A call ends whatever bound is given above two, with the same result.
  abbrev pub Ends : Option S → String → Type 0
  Ends s tag =
      (r : Option S × CommandReply) × ((calls : ℕ) → url_test b (suc (suc calls)) s tag ≡ some r)
      × Tested s r

  inner_now-set : (o : Option LiveOutbound) (now : String) → now ≢ "" → inner_now b o now ≢ ""
  inner_now-set none now h = h
  inner_now-set (some o) now h = elim (Option-cases (group_now o.role)) [
    | inl e ↦ rw (e, inner_now) h
    | inr e ↦ elim (Bool-cases (same e.0 "")) [
      | inl q ↦ rw (e.1, inner_now, q) h
      | inr q ↦ rw (e.1, inner_now, q) (apart e.0 "" q)
    ]
  ]

  url_test-named :
      (calls : ℕ) (s : Option S) (tag : String)
      → tag ≢ ""
      → url_test b (suc calls) s tag ≡ some (test_tag b s tag)
  unfolding url_test
  url_test-named calls s tag h = rw (same-ne tag "" h) refl

  test_tag-Tested : (s : Option S) (tag : String) → tag ≢ "" → Tested s (test_tag b s tag)
  test_tag-Tested none tag h = inl refl
  test_tag-Tested (some box) tag h = inr (box, tag, refl, h, refl)

  url_test_active-Ends :
      (s : Option S)
      → (r : Option S × CommandReply) × ((calls : ℕ)
          → url_test_active b (url_test b (suc calls)) s ≡ some r)
        × Tested s r
  unfolding url_test_active
  url_test_active-Ends none = ((none, done), (λ calls. refl), inl refl)
  url_test_active-Ends (some s) = elim (Option-cases (b.outbound s outbound_select_tag)) [
    | inl e ↦ (
      (some s, failed (join "selector not found: " outbound_select_tag)),
      (λ calls. rw (e, url_test_active) refl),
      inl refl,
    )
    | inr o ↦ elim (Option-cases (group_now (o.0).role)) [
      | inl e ↦ (
        (some s, failed (join "outbound is not a selector: " outbound_select_tag)),
        (λ calls. rw (o.1, url_test_active, e) refl),
        inl refl,
      )
      | inr now ↦ elim (Bool-cases (same now.0 "")) [
        | inl e ↦ (
          (some s, failed (join "outbound not found in selector: " outbound_select_tag)),
          (λ calls. rw (o.1, url_test_active, now.1, e) refl),
          inl refl,
        )
        | inr e ↦
            let tag = inner_now b (b.outbound s now.0) now.0 in
            let set = inner_now-set (b.outbound s now.0) now.0 (apart now.0 "" e) in
            (
              test_tag b (some s) tag,
              (λ calls.
                  rw (o.1, url_test_active, now.1, e) (url_test-named calls (some s) tag set)),
              test_tag-Tested (some s) tag set,
            )
      ]
    ]
  ]

  -- `UrlTest` returns after two open calls at most, whatever the tag and the groups are. What it has
  -- done then is one test of a tag that is not empty, or nothing.
  pub url_test-Ends : (s : Option S) (tag : String) → Ends s tag
  unfolding url_test
  url_test-Ends s tag = elim (Bool-cases (same tag "")) [
    | inl e ↦
        let active = url_test_active-Ends s in
        (active.0, (λ calls. rw (e) (active.1 calls)), active.2)
    | inr e ↦ (test_tag b s tag, (λ calls. rw (e) refl), test_tag-Tested s tag (apart tag "" e))
  ]
