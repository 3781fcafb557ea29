-- ===== src/Share/Awg/Grammar.antt =====
-- The obfuscation chains that `validateObfSpec` takes.
pub mod Tags
use Prim.Native.String.{String}
use Prim.Native.Char.{Char, code}
use text.Mathlib.TextLemmas.{nil-append, append-nil, append_assoc, cons-append}
use inhive_core.Prelude.{
  Bool, true, false, none, some, Outcome, ok, fail, ◌>>=◌, join, ◌≡◌, refl, sym, ap, subst, ◌∙◌,
  ◌↔◌, Bool-cases, inl, inr, ◌==◌, if◌then◌else◌,
}
use inhive_core.Share.Library.{Library}
use inhive_core.Share.Awg.Grammar.Tags.{AreTag, tags_of_words, words_of_tags}
use inhive_core.Share.Awg.{is_good_tag, obf_from, validate_obf_spec}

-- The text is the body, a ">" that is not in the body, and the rest.
pub data Closes : String → String → String → Type 0 where
  here : {c : Char} {s : String} → (code c == 62) ≡ true → Closes "" (String.◌∷◌ c s) s
  later :
      {c : Char} {body s rest : String}
      → (code c == 62) ≡ false
      → Closes body s rest
      → Closes (String.◌∷◌ c body) (String.◌∷◌ c s) rest

-- Characters other than "<", and tags with their text, from "<" to the next ">".
pub data Chain (l : Library) : String → Type 0 where
  done : Chain l ""
  other : {c : Char} {s : String} → (code c == 60) ≡ false → Chain l s → Chain l (String.◌∷◌ c s)
  tag :
      {c : Char} {body s rest : String}
      → (code c == 60) ≡ true
      → Closes body s rest
      → AreTag l (l.fields body)
      → Chain l rest
      → Chain l (String.◌∷◌ c s)

join-next :
    (t : String) (c : Char) (s : String)
    → join (join t (String.◌∷◌ c "")) s ≡ join t (String.◌∷◌ c s)
join-next t c s =
    append_assoc t (String.◌∷◌ c "") s
    ∙ ap (λ r. join t r) (cons-append c "" s ∙ ap (λ r. String.◌∷◌ c r) (nil-append s))

module _ (l : Library) where
  abbrev IsGood : String → Type 0
  IsGood body = is_good_tag l (l.fields body) ≡ true

  -- The rest of a tag that is open, and what follows it.
  abbrev OpenTag : String → String → Type 0
  OpenTag t s =
      (body : String) × (rest : String) × Closes body s rest × IsGood (join t body) × Chain l rest

  abbrev Reads : String → Type 0
  Reads s =
      (obf_from l none s ≡ ok tt → Chain l s)
      × ((t : String) → obf_from l (some t) s ≡ ok tt → OpenTag t s)

  Reads-next :
      (c : Char) (s : String)
      → Reads s
      → obf_from l none (String.◌∷◌ c s) ≡ ok tt
      → Chain l (String.◌∷◌ c s)
  unfolding obf_from
  Reads-next c s ih e = elim (Bool-cases (code c == 60)) [
    | inl h ↦
        let opened =
          ih.1 "" (subst (λ b. obf_from l (if b then some "" else none) s ≡ ok tt) h e) in
        tag h opened.2
          (tags_of_words l (l.fields opened.0) (subst IsGood (nil-append opened.0) opened.3))
          opened.4
    | inr h ↦ other h (ih.0 (subst (λ b. obf_from l (if b then some "" else none) s ≡ ok tt) h e))
  ]

  -- What the loop does at a character of an open tag.
  abbrev at_close : String → Char → String → Bool → Bool → Outcome (Unit {0})
  at_close t c s closes good =
      (if closes
        then (if good then ok none else fail "invalid tag")
        else ok (some (join t (String.◌∷◌ c ""))))
      >>= λ next. obf_from l next s

  OpenTag-next :
      (c : Char) (s t : String)
      → Reads s
      → obf_from l (some t) (String.◌∷◌ c s) ≡ ok tt
      → OpenTag t (String.◌∷◌ c s)
  unfolding obf_from
  OpenTag-next c s t ih e = elim (Bool-cases (code c == 62)) [
    | inl h ↦
        let e' = subst (λ b. at_close t c s b (is_good_tag l (l.fields t)) ≡ ok tt) h e in
        elim (Bool-cases (is_good_tag l (l.fields t))) [
          | inl g ↦ (
            "",
            s,
            here h,
            subst IsGood (sym (append-nil t)) g,
            ih.0 (subst (λ b. at_close t c s true b ≡ ok tt) g e'),
          )
          | inr g ↦ cc (subst (λ b. at_close t c s true b ≡ ok tt) g e')
        ]
    | inr h ↦
        let e' = subst (λ b. at_close t c s b (is_good_tag l (l.fields t)) ≡ ok tt) h e in
        let opened = ih.1 (join t (String.◌∷◌ c "")) e' in
        (
          String.◌∷◌ c opened.0,
          opened.1,
          later h opened.2,
          subst IsGood (join-next t c opened.0) opened.3,
          opened.4,
        )
  ]

  reads : (s : String) → Reads s
  unfolding obf_from
  reads String.[] = (λ e. done, λ t e. cc (e))
  reads (String.◌∷◌ c s) = (Reads-next c s (reads s), λ t e. OpenTag-next c s t (reads s) e)

  open_tag-closed :
      {body s rest : String}
      → Closes body s rest
      → (t : String) → IsGood (join t body)
      → obf_from l (some t) s ≡ obf_from l none rest
  unfolding obf_from
  open_tag-closed (here {c} {s} h) t g =
      subst (λ b. at_close t c s b (is_good_tag l (l.fields t)) ≡ obf_from l none s) (sym h)
        (subst (λ b. at_close t c s true b ≡ obf_from l none s)
          (sym (subst IsGood (append-nil t) g)) refl)
  open_tag-closed (later {c} {body} {s} {rest} h k) t g =
      subst (λ b. at_close t c s b (is_good_tag l (l.fields t)) ≡ obf_from l none rest) (sym h)
        (open_tag-closed k (join t (String.◌∷◌ c "")) (subst IsGood (sym (join-next t c body)) g))

  Chain-read : {s : String} → Chain l s → obf_from l none s ≡ ok tt
  unfolding obf_from
  Chain-read done = refl
  Chain-read (other {c} {s} h k) =
      subst (λ b. obf_from l (if b then some "" else none) s ≡ ok tt) (sym h) (Chain-read k)
  Chain-read (tag {c} {body} {s} {rest} h k g more) =
      subst (λ b. obf_from l (if b then some "" else none) s ≡ ok tt) (sym h)
        (open_tag-closed k ""
            (subst IsGood (sym (nil-append body)) (words_of_tags l (l.fields body) g))
          ∙ Chain-read more)

-- A specification of junk packets is taken exactly if it consists of tags, from each "<" to the next ">",
-- and of other characters. A tag is "b" with an even number of hexadecimal digits, "t", "d" or "ds", or
-- "r", "rc", "rd" or "dz" with a number that is not negative; there is no other, so no "c" or "wt".
pub validate_obf_spec_iff : (l : Library) (s : String) → (validate_obf_spec l s ≡ ok tt) ↔ Chain l s
unfolding validate_obf_spec
validate_obf_spec_iff l s = (λ e. (reads l s).0 e, Chain-read l)
