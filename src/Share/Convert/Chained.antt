-- ===== src/Share/Convert/Chained.antt =====
-- Where the detours of a conversion lead.
use mathlib.Core.List.{Memᴰ}
use mathlib.Core.List.Memᴰ.{append_left, append_right, append_cases}
use inhive_core.Prelude.{
  ℕ, arith, ◌+◌, append_assoc, if_both, String, List, [], ◌∷◌, ◌++◌, Option, none, some, Outcome,
  ok, fail, panic, ◌≡◌, refl, ap, subst, Option-cases, ◌∙◌, ◌⊎◌, inl, inr, All, All-append, All-map,
  >>=-eq-ok,
}
use inhive_core.Share.Links.{Links, Entry, OutEnd}
use inhive_core.Share.Lines.{expand_decoded_config, decode_base64_if_needed}
use inhive_core.Share.Convert.{
  Converted, Conversion, with_detour, with_counter, add_parts, add_outend, add_chain, add_config,
  add_configs, nothing_converted, conversion, is_ignored, process_single_config, ingested,
  generate_config_lite,
}

-- The detours, followed from an entry, stay among the entries and end at one that dials directly.
pub data Dials (all : List Entry) : Entry → Type 0 where
  no_dialer : {e : Entry} → e.detour ≡ none → Dials all e
  direct : {e : Entry} → e.detour ≡ some "" → Dials all e
  through :
      {e : Entry} (next : Entry)
      → Memᴰ next all
      → e.detour ≡ some next.tag
      → Dials all next
      → Dials all e

abbrev Included : List Entry → List Entry → Type 0
Included all all' = (e : Entry) → Memᴰ e all → Memᴰ e all'

Dials-more : {all all' : List Entry} → Included all all' → (e : Entry) → Dials all e → Dials all' e
Dials-more sub e (no_dialer p) = no_dialer p
Dials-more sub e (direct p) = direct p
Dials-more sub e (through next m p d) = through next (sub next m) p (Dials-more sub next d)

-- A tag that a new entry may dial through.
abbrev Target : List Entry → String → Type 0
Target all d = (d ≡ "") ⊎ ((e : Entry) × Memᴰ e all × (d ≡ e.tag) × Dials all e)

Target-more :
    {all all' : List Entry} → Included all all' → (d : String) → Target all d → Target all' d
Target-more sub d (inl e) = inl e
Target-more sub d (inr t) = inr (t.0, sub t.0 t.1, t.2, Dials-more sub t.0 t.3)

detoured : {all : List Entry} (d : String) (e : Entry) → Target all d → Dials all (with_detour d e)
detoured d e t = elim (Option-cases e.detour) [
  | inl p ↦ no_dialer (rw (p) refl)
  | inr p ↦
      let set : (with_detour d e).detour ≡ some d = rw (p.1) refl in
      elim t [ inl q ↦ direct (set ∙ ap some q) | inr q ↦ through q.0 q.1 (set ∙ ap some q.2) q.3 ]
]

abbrev pub entries : Converted → List Entry
entries s = s.outbounds ++ s.endpoints

abbrev IsChained : Converted → Type 0
IsChained s = All (Dials (entries s)) (entries s) × Target (entries s) s.detour_tag

middle : (xs ys zs : List Entry) → Included (xs ++ zs) ((xs ++ ys) ++ zs)
middle xs ys zs e m = elim (append_cases xs m) [
  | inl h ↦ append_left zs (append_left ys h)
  | inr h ↦ append_right (xs ++ ys) h
]

All-split {ℓ} : (P : Entry → Type ℓ) (xs ys : List Entry) → All P (xs ++ ys) → All P xs × All P ys
All-split P [] ys h = (tt, h)
All-split P (x ∷ xs) ys h = let r = All-split P xs ys h.1 in ((h.0, r.0), r.1)

inserted :
    (xs ys zs : List Entry)
    → All (Dials (xs ++ zs)) (xs ++ zs)
    → All (Dials ((xs ++ ys) ++ zs)) ys
    → All (Dials ((xs ++ ys) ++ zs)) ((xs ++ ys) ++ zs)
inserted xs ys zs h k =
    let all = (xs ++ ys) ++ zs in
    let old : All (Dials all) (xs ++ zs) = All-map (Dials-more (middle xs ys zs)) (xs ++ zs) h in
    let parts = All-split (Dials all) xs zs old in
    All-append (Dials all) (xs ++ ys) zs (All-append (Dials all) xs ys parts.0 k) parts.1

-- One more outbound or endpoint, through which the next one dials.
next_outbound :
    (s : Converted) (e : Entry) (k : ℕ)
    → IsChained s
    → IsChained (record s {
      outbounds = s.outbounds ++ (with_detour s.detour_tag e ∷ []);
      counter = k;
      detour_tag = e.tag;
    })
next_outbound s e k h =
    let e' = with_detour s.detour_tag e in
    let sub = middle s.outbounds (e' ∷ []) s.endpoints in
    let d = detoured s.detour_tag e (Target-more sub s.detour_tag h.1) in
    let here = append_left s.endpoints (append_right s.outbounds (Memᴰ.head refl)) in
    (inserted s.outbounds (e' ∷ []) s.endpoints h.0 (d, tt), inr (e', here, refl, d))

next_endpoint :
    (s : Converted) (e : Entry) (k : ℕ)
    → IsChained s
    → IsChained (record s {
      endpoints = s.endpoints ++ (with_detour s.detour_tag e ∷ []);
      counter = k;
      detour_tag = e.tag;
    })
next_endpoint s e k h =
    let e' = with_detour s.detour_tag e in
    let old = entries s in
    let sub : Included old (old ++ (e' ∷ [])) = λ x m. append_left (e' ∷ []) m in
    let d = detoured s.detour_tag e (Target-more sub s.detour_tag h.1) in
    let all =
      All-append (Dials (old ++ (e' ∷ []))) old (e' ∷ []) (All-map (Dials-more sub) old h.0)
        (d, tt) in
    subst (λ l. All (Dials l) l × Target l e.tag) (append_assoc s.outbounds s.endpoints (e' ∷ []))
      (all, inr (e', append_right old (Memᴰ.head refl), refl, d))

next_pair :
    (s : Converted) (main helper : Entry) (k : ℕ)
    → IsChained s
    → IsChained (record s {
      outbounds =
          s.outbounds ++ (with_detour helper.tag main ∷ (with_detour s.detour_tag helper ∷ []));
      counter = k;
      detour_tag = main.tag;
    })
next_pair s main helper k h =
    let helper' = with_detour s.detour_tag helper in
    let main' = with_detour helper.tag main in
    let new = main' ∷ (helper' ∷ []) in
    let sub = middle s.outbounds new s.endpoints in
    let d = detoured s.detour_tag helper (Target-more sub s.detour_tag h.1) in
    let there = append_left s.endpoints (append_right s.outbounds (Memᴰ.tail (Memᴰ.head refl))) in
    let d' = detoured helper.tag main (inr (helper', there, refl, d)) in
    let here = append_left s.endpoints (append_right s.outbounds (Memᴰ.head refl)) in
    (inserted s.outbounds new s.endpoints h.0 (d', (d, tt)), inr (main', here, refl, d'))

add_parts-IsChained :
    (l : Links) (s : Converted) (o h e : Option Entry)
    → IsChained s
    → IsChained (add_parts l s o h e)
unfolding add_parts
add_parts-IsChained l s (some main) (some helper) e c =
    next_pair s (with_counter l s.counter main) (with_counter l (s.counter + 1) helper)
      (s.counter + 1 + 1) c
add_parts-IsChained l s (some o) none e c =
    next_outbound s (with_counter l s.counter o) (s.counter + 1) c
add_parts-IsChained l s none h (some e) c =
    next_endpoint s (with_counter l s.counter e) (s.counter + 1) c
add_parts-IsChained l s none h none c = c

add_outend-IsChained :
    (l : Links) (s : Converted) (o : Outcome OutEnd) → IsChained s → IsChained (add_outend l s o)
unfolding add_outend
add_outend-IsChained l s panic c = c
add_outend-IsChained l s (fail e) c = c
add_outend-IsChained l s (ok o) c = add_parts-IsChained l s o.outbound o.helper o.endpoint c

add_chain-IsChained :
    (l : Links) (chains : List String) (s : Converted)
    → IsChained s
    → IsChained (add_chain l chains s)
unfolding add_chain
add_chain-IsChained l [] s c = c
add_chain-IsChained l (chain ∷ chains) s c =
    add_outend-IsChained l (add_chain l chains s)
      (process_single_config l (decode_base64_if_needed l.library chain))
      (add_chain-IsChained l chains s c)

add_config-IsChained :
    (l : Links) (config : String) (s : Converted) → IsChained s → IsChained (add_config l config s)
unfolding add_config
add_config-IsChained l config s c = if_both IsChained (is_ignored config) c (
    add_chain-IsChained l (l.library.split config " -> ") (record s { detour_tag = "" })
      (c.0, inl refl))

add_configs-IsChained :
    (l : Links) (configs : List String) (s : Converted)
    → IsChained s
    → IsChained (add_configs l configs s)
unfolding add_configs
add_configs-IsChained l [] s c = c
add_configs-IsChained l (config ∷ configs) s c =
    add_configs-IsChained l configs (add_config l config s) (add_config-IsChained l config s c)

-- All the entries of a conversion.
abbrev pub converted : Conversion → List Entry
converted c = c.outbounds ++ c.endpoints

pub conversion-ok :
    (s : Converted) {c : Conversion}
    → conversion s ≡ ok c
    → record { outbounds = s.outbounds; endpoints = s.endpoints } ≡ c
unfolding conversion
conversion-ok s e = ground arith

-- In a conversion each outbound and each endpoint dials directly, or through another one of the same
-- conversion, and so on, until one that dials directly is reached: no detour is left without its
-- target, and none leads back.
pub generate_config_lite-Dials :
    (l : Links) (input : String) {c : Conversion}
    → generate_config_lite l input ≡ ok c
    → All (Dials (converted c)) (converted c)
unfolding generate_config_lite
generate_config_lite-Dials l input e =
    let read = >>=-eq-ok (ingested l input) _ e in
    let s = add_configs l (expand_decoded_config l.library read.0) nothing_converted in
    subst (λ c. All (Dials (converted c)) (converted c)) (conversion-ok s read.2)
      (add_configs-IsChained l (expand_decoded_config l.library read.0) nothing_converted
        (tt, inl refl)).0
