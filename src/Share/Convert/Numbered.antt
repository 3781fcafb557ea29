-- ===== src/Share/Convert/Numbered.antt =====
-- The tags of a conversion.
use inhive_core.Prelude.{
  ℕ, ◌+◌, ◌<◌, arith, append_assoc, append-nil, if_both, String, false, List, [], ◌∷◌, ◌++◌, Option,
  none, some, Outcome, ok, fail, panic, ◌≡◌, ◌≢◌, ap, sym, subst, ◌∙◌, All, All-map, >>=-eq-ok,
}
use inhive_core.Share.Links.{Links, Entry, OutEnd}
use inhive_core.Share.Lines.{expand_decoded_config, decode_base64_if_needed}
use inhive_core.Share.Convert.{
  Converted, Conversion, with_detour, with_counter, add_parts, add_outend, add_chain, add_config,
  add_configs, nothing_converted, is_ignored, process_single_config, ingested, generate_config_lite,
}
use inhive_core.Share.Convert.Words.{has_space, last_word, last_word-counted}
use inhive_core.Share.Convert.Chained.{converted, entries, conversion-ok}

-- The tags are pairwise different.
abbrev pub DistinctTags : List Entry → Type 0
DistinctTags [] = Unit
DistinctTags (e ∷ es) = All (λ x. e.tag ≢ x.tag) es × DistinctTags es

All-insert {ℓ} :
    (P : Entry → Type ℓ) (xs zs : List Entry) (e : Entry)
    → All P (xs ++ zs)
    → P e
    → All P ((xs ++ (e ∷ [])) ++ zs)
All-insert P [] zs e h p = (p, h)
All-insert P (x ∷ xs) zs e h p = (h.0, All-insert P xs zs e h.1 p)

DistinctTags-insert :
    (xs zs : List Entry) (e : Entry)
    → DistinctTags (xs ++ zs)
    → All (λ (x : Entry). e.tag ≢ x.tag) (xs ++ zs)
    → DistinctTags ((xs ++ (e ∷ [])) ++ zs)
DistinctTags-insert [] zs e h k = (k, h)
DistinctTags-insert (x ∷ xs) zs e h k = (
  All-insert (λ (y : Entry). x.tag ≢ y.tag) xs zs e h.0 (λ q. k.0 (sym q)),
  DistinctTags-insert xs zs e h.1 k.1,
)

module _ (l : Links) (itoa_injective : (i j : ℕ) → l.library.itoa i ≡ l.library.itoa j → i ≡ j)
    (itoa_plain : (i : ℕ) → has_space (l.library.itoa i) ≡ false) where
  -- The last word of the tag is a counter below a bound.
  abbrev Below : ℕ → Entry → Type 0
  Below k e = (j : ℕ) × (j < k) × (last_word e.tag ≡ l.library.itoa j)

  abbrev Numbers : ℕ → List Entry → Type 0
  Numbers k es = DistinctTags es × All (Below k) es

  abbrev IsNumbered : Converted → Type 0
  IsNumbered s = Numbers s.counter (entries s)

  Below-fresh :
      (k : ℕ) (e : Entry)
      → last_word e.tag ≡ l.library.itoa k
      → (x : Entry) → Below k x
      → e.tag ≢ x.tag
  Below-fresh k e w x b q =
      let same_number = itoa_injective k b.0 (sym w ∙ (ap last_word q ∙ b.2)) in
      absurd (omega arith)

  Below-suc : (k : ℕ) (x : Entry) → Below k x → Below (k + 1) x
  Below-suc k x b = (b.0, omega (arith, b.1), b.2)

  -- One more entry that has the counter.
  insert-IsNumbered :
      (xs zs : List Entry) (k : ℕ) (e : Entry)
      → last_word e.tag ≡ l.library.itoa k
      → Numbers k (xs ++ zs)
      → Numbers (k + 1) ((xs ++ (e ∷ [])) ++ zs)
  insert-IsNumbered xs zs k e w h = (
    DistinctTags-insert xs zs e h.0 (All-map (Below-fresh k e w) (xs ++ zs) h.1),
    All-insert (Below (k + 1)) xs zs e (All-map (Below-suc k) (xs ++ zs) h.1) (k, omega arith, w),
  )

  counted : (k : ℕ) (e : Entry) → last_word (with_counter l k e).tag ≡ l.library.itoa k
  counted k e = last_word-counted e.tag (l.library.itoa k) (itoa_plain k)

  add_parts-IsNumbered :
      (s : Converted) (o h e : Option Entry) → IsNumbered s → IsNumbered (add_parts l s o h e)
  unfolding add_parts
  add_parts-IsNumbered s (some main) (some helper) e c =
      let h = with_counter l (s.counter + 1) helper in
      let m = with_detour h.tag (with_counter l s.counter main) in
      let h' = with_detour s.detour_tag h in
      let one = insert-IsNumbered s.outbounds s.endpoints s.counter m (counted s.counter main) c in
      let two =
        insert-IsNumbered (s.outbounds ++ (m ∷ [])) s.endpoints (s.counter + 1) h'
          (counted (s.counter + 1) helper) one in
      subst (λ es. Numbers (s.counter + 1 + 1) (es ++ s.endpoints))
        (append_assoc s.outbounds (m ∷ []) (h' ∷ [])) two
  add_parts-IsNumbered s (some o) none e c =
      insert-IsNumbered s.outbounds s.endpoints s.counter
        (with_detour s.detour_tag (with_counter l s.counter o)) (counted s.counter o) c
  add_parts-IsNumbered s none h (some e) c =
      let e' = with_detour s.detour_tag (with_counter l s.counter e) in
      let old = subst (Numbers s.counter) (sym (append-nil (entries s))) c in
      subst (Numbers (s.counter + 1))
        (append-nil (entries s ++ (e' ∷ [])) ∙ append_assoc s.outbounds s.endpoints (e' ∷ []))
        (insert-IsNumbered (entries s) [] s.counter e' (counted s.counter e) old)
  add_parts-IsNumbered s none h none c = (c.0, All-map (Below-suc s.counter) (entries s) c.1)

  add_outend-IsNumbered :
      (s : Converted) (o : Outcome OutEnd) → IsNumbered s → IsNumbered (add_outend l s o)
  unfolding add_outend
  add_outend-IsNumbered s panic c = c
  add_outend-IsNumbered s (fail e) c = c
  add_outend-IsNumbered s (ok o) c = add_parts-IsNumbered s o.outbound o.helper o.endpoint c

  add_chain-IsNumbered :
      (chains : List String) (s : Converted) → IsNumbered s → IsNumbered (add_chain l chains s)
  unfolding add_chain
  add_chain-IsNumbered [] s c = c
  add_chain-IsNumbered (chain ∷ chains) s c =
      add_outend-IsNumbered (add_chain l chains s)
        (process_single_config l (decode_base64_if_needed l.library chain))
        (add_chain-IsNumbered chains s c)

  add_configs-IsNumbered :
      (configs : List String) (s : Converted) → IsNumbered s → IsNumbered (add_configs l configs s)
  unfolding add_configs add_config
  add_configs-IsNumbered [] s c = c
  add_configs-IsNumbered (config ∷ configs) s c =
      add_configs-IsNumbered configs (add_config l config s) (
        if_both IsNumbered (is_ignored config) c
          (add_chain-IsNumbered (l.library.split config " -> ") (record s { detour_tag = "" }) c))

  -- If the counter is written without spaces, and different numbers differently, then no two entries
  -- of a conversion, outbounds and endpoints together, have the same tag.
  pub generate_config_lite-DistinctTags :
      (input : String) {c : Conversion}
      → generate_config_lite l input ≡ ok c
      → DistinctTags (converted c)
  unfolding generate_config_lite
  generate_config_lite-DistinctTags input e =
      let read = >>=-eq-ok (ingested l input) _ e in
      let configs = expand_decoded_config l.library read.0 in
      subst (λ c. DistinctTags (converted c))
        (conversion-ok (add_configs l configs nothing_converted) read.2)
        (add_configs-IsNumbered configs nothing_converted (tt, tt)).0
