-- ===== src/Config/Reading/Salvage.antt =====
-- What a configuration that was read consists of.
use inhive_core.Prelude.{
  ℕ, String, Bool, true, false, ◌&&◌, List, [], ◌∷◌, Option, none, some, Outcome, panic, ok, fail,
  ◌==◌, same, same-ne, apart, ◌≡◌, ◌≢◌, refl, sym, ap, subst, ◌∙◌, ◌⊎◌, inl, inr, ◌<◌, ◌+◌, zero,
  suc, arith, Bool-cases, Option-cases, >>=-eq-ok, if◌then◌else◌, eq_iff, if_case,
}
use inhive_core.Config.Reading.{
  Decoder, ReadOptions, Sections, or_fail, section_of, replaced, add_kept, is_valid_entry,
  keep_entries, salvage_raw, salvage_found, salvage_section, checked_salvage, rebuilt_options,
  salvage_sing_options, read_content, or_error, or_salvaged, read_or_given, read_sing_options,
}

or_fail-ok : {V : Type 0} (x : Option V) {v : V} → or_fail x ≡ ok v → x ≡ some v
or_fail-ok none e = cc
or_fail-ok (some w) e = cc

section_of-replaced :
    (m : Sections) (k raw raw' : String)
    → section_of m k ≡ some raw'
    → section_of (replaced k raw m) k ≡ some raw
unfolding section_of replaced
section_of-replaced [] k raw raw' e = cc
section_of-replaced ((k', v) ∷ m) k raw raw' e = elim (Bool-cases (same k' k)) [
  | inl h ↦ rw (h) refl
  | inr h ↦ rw (h) (
      section_of-replaced m k raw raw'
        (subst (λ b. (if b then some v else section_of m k) ≡ some raw') h e))
]

section_of-replaced_other :
    (m : Sections) (k raw k' : String) → k ≢ k' → section_of (replaced k raw m) k' ≡ section_of m k'
unfolding section_of replaced
section_of-replaced_other [] k raw k' e = refl
section_of-replaced_other ((k'', v) ∷ m) k raw k' e = elim (Bool-cases (same k'' k')) [
  | inl h ↦ rw (h, same-ne k'' k (λ q. e (sym q ∙ (eq_iff k'' k').0 h))) refl
  | inr h ↦ rw (h) (section_of-replaced_other m k raw k' e)
]

not_both_zero : (a b : ℕ) → ((a == 0) && (b == 0)) ≡ false → (0 < a) ⊎ (0 < b)
not_both_zero a b e = ground arith

module _ {O : Type 0} (d : Decoder O) where
  -- The second list has the entries of the first that decode alone, in order; the number is that of the
  -- others.
  pub data Sifted (section : String) : List String → List String → ℕ → Type 0 where
    done : Sifted section [] [] 0
    kept :
        {entry : String} {es ks : List String} {n : ℕ}
        → is_valid_entry d section entry ≡ true
        → Sifted section es ks n
        → Sifted section (entry ∷ es) (entry ∷ ks) n
    left_out :
        {entry : String} {es ks : List String} {n : ℕ}
        → is_valid_entry d section entry ≡ false
        → Sifted section es ks n
        → Sifted section (entry ∷ es) ks (suc n)

  -- A section is absent from both, or its text is rewritten with the entries that decode.
  abbrev pub IsRewritten : String → Sections → Sections → ℕ → Type 0
  IsRewritten section m m' n =
      ((section_of m section ≡ none) × (section_of m' section ≡ none) × (n ≡ 0))
      ⊎ ((raw : String) × (es : List String) × (ks : List String) × (section_of m section
            ≡ some raw)
          × (d.entries raw ≡ some es)
          × Sifted section es ks n
          × (section_of m' section ≡ d.marshal_entries ks))

  abbrev pub IsSalvaged : String → O → Type 0
  IsSalvaged content o =
      (m : Sections) × (m' : Sections) × (a : ℕ) × (b : ℕ) × (text : String) × (d.shallow content
        ≡ some m)
      × IsRewritten "outbounds" m m' a
      × IsRewritten "endpoints" m m' b
      × ((k : String) → k ≢ "outbounds" → k ≢ "endpoints" → section_of m' k ≡ section_of m k)
      × (0 < a + b)
      × (d.marshal m' ≡ some text)
      × (d.decode text ≡ some o)
      × ((0 < d.outbounds o) ⊎ (0 < d.endpoints o))

  keep_entries-Sifted :
      (section : String) (es : List String)
      → Sifted section es (keep_entries d section es).0 (keep_entries d section es).1
  unfolding keep_entries
  keep_entries-Sifted section [] = done
  keep_entries-Sifted section (entry ∷ es) =
      let P : Bool → Type 0 = λ b.
        Sifted section (entry ∷ es) (add_kept b entry (keep_entries d section es)).0
          (add_kept b entry (keep_entries d section es)).1 in
      elim (Bool-cases (is_valid_entry d section entry)) [
        | inl e ↦ subst P (sym e) (kept e (keep_entries-Sifted section es))
        | inr e ↦ subst P (sym e) (left_out e (keep_entries-Sifted section es))
      ]

  -- One round of the loop, which leaves the other sections.
  abbrev IsRound : String → Sections → Sections × ℕ → Type 0
  IsRound section m r =
      IsRewritten section m r.0 r.1
      × ((k : String) → section ≢ k → section_of r.0 k ≡ section_of m k)

  salvage_raw-IsRound :
      (section raw : String) (m : Sections) (r : Sections × ℕ)
      → section_of m section ≡ some raw
      → salvage_raw d section raw m ≡ ok r
      → IsRound section m r
  unfolding salvage_raw
  salvage_raw-IsRound section raw m r e h =
      let s = >>=-eq-ok (or_fail (d.entries raw)) _ h in
      let t = >>=-eq-ok (or_fail (d.marshal_entries (keep_entries d section s.0).0)) _ s.2 in
      let result : (replaced section t.0 m, (keep_entries d section s.0).1) ≡ r = cc (t.2) in
      subst (IsRound section m) result (
        inr (
          raw,
          s.0,
          (keep_entries d section s.0).0,
          e,
          or_fail-ok (d.entries raw) s.1,
          keep_entries-Sifted section s.0,
          section_of-replaced m section t.0 raw e
              ∙ sym (or_fail-ok (d.marshal_entries (keep_entries d section s.0).0) t.1),
        ),
        λ k ne. section_of-replaced_other m section t.0 k ne,
      )

  salvage_section-IsRound :
      (section : String) (m : Sections) (r : Sections × ℕ)
      → salvage_section d section m ≡ ok r
      → IsRound section m r
  unfolding salvage_section
  salvage_section-IsRound section m r h = elim (Option-cases (section_of m section)) [
    | inl e ↦
        let unchanged : (m, 0) ≡ r = cc (subst (λ x. salvage_found d section x m ≡ ok r) e h) in
        subst (IsRound section m) unchanged (inl (e, e, refl), λ k ne. refl)
    | inr (raw, e) ↦
        salvage_raw-IsRound section raw m r e (subst (λ x. salvage_found d section x m ≡ ok r) e h)
  ]

  IsRewritten-eq :
      (section : String) (m m' k k' : Sections) {n : ℕ}
      → section_of m section ≡ section_of k section
      → section_of m' section ≡ section_of k' section
      → IsRewritten section m m' n
      → IsRewritten section k k' n
  IsRewritten-eq section m m' k k' e e' (inl h) = inl (sym e ∙ h.0, sym e' ∙ h.1, h.2)
  IsRewritten-eq section m m' k k' e e' (inr (raw, es, ks, a, b, c, d)) =
      inr (raw, es, ks, sym e ∙ a, b, c, sym e' ∙ d)

  checked_salvage-ok :
      (o o' : O)
      → checked_salvage d o ≡ ok o'
      → (o ≡ o') × ((0 < d.outbounds o') ⊎ (0 < d.endpoints o'))
  checked_salvage-ok o o' e =
      if_case
        (λ (x : Outcome O). x ≡ ok o' → (o ≡ o') × ((0 < d.outbounds o') ⊎ (0 < d.endpoints o')))
        ((d.outbounds o == 0) && (d.endpoints o == 0)) (fail "salvage: no outbounds survived")
        (ok o) (λ t h. cc (h))
        (λ t h.
          let same_options : o ≡ o' = cc (h) in
          (
            same_options,
            subst (λ x. (0 < d.outbounds x) ⊎ (0 < d.endpoints x)) same_options
                (not_both_zero (d.outbounds o) (d.endpoints o) t),
          ))
        e

  rebuilt_options-ok :
      (n : ℕ) (m : Sections) (o : O)
      → rebuilt_options d n m ≡ ok o
      → (text : String) × (0 < n)
        × (d.marshal m ≡ some text)
        × (d.decode text ≡ some o)
        × ((0 < d.outbounds o) ⊎ (0 < d.endpoints o))
  rebuilt_options-ok zero m o e = cc
  rebuilt_options-ok (suc n) m o e =
      let s = >>=-eq-ok (or_fail (d.marshal m)) _ e in
      let t = >>=-eq-ok (or_fail (d.decode s.0)) _ s.2 in
      let c = checked_salvage-ok t.0 o t.2 in
      (
        s.0,
        omega arith,
        or_fail-ok (d.marshal m) s.1,
        or_fail-ok (d.decode s.0) t.1 ∙ ap some c.0,
        c.1,
      )

  salvage_sing_options-IsSalvaged :
      (content : String) (o : O) → salvage_sing_options d content ≡ ok o → IsSalvaged content o
  unfolding salvage_sing_options
  salvage_sing_options-IsSalvaged content o e =
      let s = >>=-eq-ok (or_fail (d.shallow content)) _ e in
      let first = >>=-eq-ok (salvage_section d "outbounds" s.0) _ s.2 in
      let second = >>=-eq-ok (salvage_section d "endpoints" first.0.0) _ first.2 in
      let end = rebuilt_options-ok (first.0.1 + second.0.1) second.0.0 o second.2 in
      let one = salvage_section-IsRound "outbounds" s.0 first.0 first.1 in
      let two = salvage_section-IsRound "endpoints" first.0.0 second.0 second.1 in
      (
        s.0,
        second.0.0,
        first.0.1,
        second.0.1,
        end.0,
        or_fail-ok (d.shallow content) s.1,
        IsRewritten-eq "outbounds" _ _ _ _ refl
            (sym (two.1 "outbounds" (apart "endpoints" "outbounds" refl))) one.0,
        IsRewritten-eq "endpoints" _ _ _ _ (one.1 "endpoints" (apart "outbounds" "endpoints" refl))
            refl two.0,
        λ k p q. two.1 k (λ x. q (sym x)) ∙ one.1 k (λ x. p (sym x)),
        end.1,
        end.2,
        end.3,
        end.4,
      )

  -- What was read was given, or is what the text decodes to, or, where that fails, its salvage.
  abbrev pub IsRead : ReadOptions O → O → Type 0
  IsRead opt o =
      (opt.options ≡ some o)
      ⊎ ((content : String) × (read_content d opt ≡ ok content)
          × ((d.decode content ≡ some o) ⊎ ((d.decode content ≡ none) × IsSalvaged content o)))

  or_error-ok : (x : Outcome O) (o : O) → or_error d x ≡ ok o → x ≡ ok o
  or_error-ok panic o e = cc
  or_error-ok (fail m) o e = cc
  or_error-ok (ok o') o e = e

  or_salvaged-ok :
      (content : String) (x : Option O) (o : O)
      → or_salvaged d content x ≡ ok o
      → (x ≡ some o) ⊎ ((x ≡ none) × IsSalvaged content o)
  or_salvaged-ok content (some o') o e = inl (cc (e))
  or_salvaged-ok content none o e = inr (
    refl,
    salvage_sing_options-IsSalvaged content o (or_error-ok (salvage_sing_options d content) o e),
  )

  read_or_given-IsRead :
      (opt : ReadOptions O) (given : Option O) (o : O)
      → opt.options ≡ given
      → read_or_given d opt given ≡ ok o
      → IsRead opt o
  read_or_given-IsRead opt (some o') o g e = inl (g ∙ cc (e))
  read_or_given-IsRead opt none o g e =
      let s = >>=-eq-ok (read_content d opt) _ e in
      inr (s.0, s.1, or_salvaged-ok s.0 (d.decode s.0) o s.2)

  -- What is read, if no options were given, is what the text decodes to. Where the text does not decode as
  -- a whole, it is what a text of the same sections decodes to, in which the outbounds and the endpoints
  -- are those that decode alone, in order, the other sections are unchanged, at least one entry was
  -- dropped, and an outbound or endpoint is left.
  pub read_sing_options-IsRead :
      (opt : ReadOptions O) (o : O) → read_sing_options d opt ≡ ok o → IsRead opt o
  unfolding read_sing_options
  read_sing_options-IsRead opt o e = read_or_given-IsRead opt opt.options o refl e
