-- ===== src/Share/Awg/Grammar/Tags.antt =====
-- The tags of obfuscation chains that the runtime builds: `obfBuilders` of amneziawg-go, as the comment
-- at `validateObfSpec` lists them.
use Prim.Native.String.{len, String}
use inhive_core.Prelude.{
  ℕ, true, ◌&&◌, List, [], ◌∷◌, Option, none, some, same, ◌%◌, ◌==◌, ◌≡◌, ◌≢◌, ◌⊎◌, refl, sym,
  subst, Bool-cases, inl, inr, eq_iff, apart, same-ne, arith, false≢true,
}
use inhive_core.Share.Library.{Library, ℤ, pos, negsuc}
use inhive_core.Share.Lines.{trim_prefix}
use inhive_core.Share.Query.{is_one_of}
use inhive_core.Share.Awg.{non_negative, is_hex_value, is_known_tag, is_good_tag}

-- Bytes in hexadecimal digits, an even number of them and not none.
abbrev pub IsHexBytes : Library → String → Type 0
IsHexBytes l digits = (digits ≢ "") × (len digits % 2 ≡ 0) × (l.is_hex_text digits ≡ true)

abbrev pub IsLength : Library → String → Type 0
IsLength l val = (n : ℕ) × (l.atoi val ≡ some (pos n))

-- A key and the text after it.
pub data IsTag (l : Library) : String → String → Type 0 where
  bytes : {val : String} → IsHexBytes l (trim_prefix val "0x") → IsTag l "b" val
  timestamp : {val : String} → IsTag l "t" val
  packet : {val : String} → IsTag l "d" val
  packet_text : {val : String} → IsTag l "ds" val
  random : {val : String} → IsLength l val → IsTag l "r" val
  random_letters : {val : String} → IsLength l val → IsTag l "rc" val
  random_digits : {val : String} → IsLength l val → IsTag l "rd" val
  packet_size : {val : String} → IsLength l val → IsTag l "dz" val

-- The words of a tag; words after the second one are not read.
abbrev pub AreTag : Library → List String → Type 0
AreTag l [] = ⊥
AreTag l (key ∷ []) = IsTag l key ""
AreTag l (key ∷ (val ∷ more)) = IsTag l key val

hex_bytes : (l : Library) (v : String) → is_hex_value l v ≡ true → IsHexBytes l v
hex_bytes l v e = elim (Bool-cases (same v "")) [
  | inl empty ↦ cc (rw (empty) at e)
  | inr filled ↦
      let both : ((len v % 2 == 0) && l.is_hex_text v) ≡ true = rw (filled) at e in
      (apart v "" filled, ground (arith, both), ground (arith, both))
]

hex_value : (l : Library) (v : String) → IsHexBytes l v → is_hex_value l v ≡ true
hex_value l v h = rw (same-ne v "" h.0, h.1, h.2) refl

atoi-IsLength : (l : Library) (val : String) → non_negative (l.atoi val) ≡ true → IsLength l val
atoi-IsLength l val e = go (l.atoi val) refl e
  where
    go : (r : Option ℤ) → l.atoi val ≡ r → non_negative r ≡ true → IsLength l val
    go none p e = cc (e)
    go (some (pos n)) p e = (n, p)
    go (some (negsuc n)) p e = cc (e)

-- The keys, one after another.
known_key : (l : Library) (key val k : String) → same key k ≡ true → IsTag l k val → IsTag l key val
known_key l key val k e h = subst (λ x. IsTag l x val) (sym ((eq_iff key k).0 e)) h

one_key :
    (key k : String) (ks : List String)
    → is_one_of key (k ∷ ks) ≡ true
    → (same key k ≡ true) ⊎ (is_one_of key ks ≡ true)
one_key key k ks e = elim (Bool-cases (same key k)) [ inl p ↦ inl p | inr p ↦ inr (rw (p) at e) ]

plain-IsTag :
    (l : Library) (key val : String)
    → is_one_of key ("t" ∷ ("d" ∷ ("ds" ∷ []))) ≡ true
    → IsTag l key val
plain-IsTag l key val e = elim (one_key key "t" ("d" ∷ ("ds" ∷ [])) e) [
  | inl p ↦ known_key l key val "t" p timestamp
  | inr e1 ↦ elim (one_key key "d" ("ds" ∷ []) e1) [
    | inl p ↦ known_key l key val "d" p packet
    | inr e2 ↦ elim (one_key key "ds" [] e2) [
      | inl p ↦ known_key l key val "ds" p packet_text
      | inr none_left ↦ cc (none_left)
    ]
  ]
]

sized-IsTag :
    (l : Library) (key val : String)
    → IsLength l val
    → is_one_of key ("r" ∷ ("rc" ∷ ("rd" ∷ ("dz" ∷ [])))) ≡ true
    → IsTag l key val
sized-IsTag l key val n e = elim (one_key key "r" ("rc" ∷ ("rd" ∷ ("dz" ∷ []))) e) [
  | inl p ↦ known_key l key val "r" p (random n)
  | inr e1 ↦ elim (one_key key "rc" ("rd" ∷ ("dz" ∷ [])) e1) [
    | inl p ↦ known_key l key val "rc" p (random_letters n)
    | inr e2 ↦ elim (one_key key "rd" ("dz" ∷ []) e2) [
      | inl p ↦ known_key l key val "rd" p (random_digits n)
      | inr e3 ↦ elim (one_key key "dz" [] e3) [
        | inl p ↦ known_key l key val "dz" p (packet_size n)
        | inr none_left ↦ cc (none_left)
      ]
    ]
  ]
]

is_known_tag-IsTag :
    (l : Library) (key val : String) → is_known_tag l key val ≡ true → IsTag l key val
unfolding is_known_tag
is_known_tag-IsTag l key val e = elim (Bool-cases (same key "b")) [
  | inl b ↦ known_key l key val "b" b (bytes (hex_bytes l _ (rw (b) at e)))
  | inr b ↦ elim (Bool-cases (is_one_of key ("t" ∷ ("d" ∷ ("ds" ∷ []))))) [
    | inl p ↦ plain-IsTag l key val p
    | inr p ↦ elim (Bool-cases (is_one_of key ("r" ∷ ("rc" ∷ ("rd" ∷ ("dz" ∷ [])))))) [
      | inl q ↦ sized-IsTag l key val (atoi-IsLength l val (rw (b, p, q) at e)) q
      | inr q ↦ cc (rw (b, p, q) at e)
    ]
  ]
]

length_known : (l : Library) (val : String) → IsLength l val → non_negative (l.atoi val) ≡ true
length_known l val h = rw (h.1) refl

word_of_tag : (l : Library) {key val : String} → IsTag l key val → is_known_tag l key val ≡ true
unfolding is_known_tag
word_of_tag l (bytes {val} h) = hex_value l (trim_prefix val "0x") h
word_of_tag l timestamp = refl
word_of_tag l packet = refl
word_of_tag l packet_text = refl
word_of_tag l (random {val} h) = length_known l val h
word_of_tag l (random_letters {val} h) = length_known l val h
word_of_tag l (random_digits {val} h) = length_known l val h
word_of_tag l (packet_size {val} h) = length_known l val h

pub tags_of_words : (l : Library) (ws : List String) → is_good_tag l ws ≡ true → AreTag l ws
tags_of_words l [] e = false≢true e
tags_of_words l (key ∷ []) e = is_known_tag-IsTag l key "" e
tags_of_words l (key ∷ (val ∷ more)) e = is_known_tag-IsTag l key val e

pub words_of_tags : (l : Library) (ws : List String) → AreTag l ws → is_good_tag l ws ≡ true
words_of_tags l [] h = absurd h
words_of_tags l (key ∷ []) h = word_of_tag l h
words_of_tags l (key ∷ (val ∷ more)) h = word_of_tag l h
