-- ===== src/Share/Awg/Accepted/Values.antt =====
-- The values that the checks of xray2sing/ray2sing/awg.go let through.
use Prim.Native.String.{String}
use inhive_core.Prelude.{
  ℕ, true, not, ◌&&◌, List, [], ◌∷◌, Option, none, some, Outcome, panic, ok, fail, ◌>>=◌, same,
  length, ltb, ◌==◌, ◌≤◌, ◌≡◌, refl, ◌⊎◌, inl, inr, arith, All, IfOk, IfOk-use, IfOk-of, if_case,
  if_both, Bool-cases, eq_iff,
}
use inhive_core.Share.Library.{Library, ℤ, pos, negsuc}
use inhive_core.Share.Lines.{padded}
use inhive_core.Share.Query.{replace_char, trim_padding}
use inhive_core.Share.Awg.{
  Obfuscation, key_of_bytes, normalize_wg_key, header_parts, header_number, header_range,
  validate_magic_header, validate_obf_spec, clamp_awg_int, clamped, all_headers, all_chains,
  validate_specs, is_reserved, checked_reserved, reserved_bytes, parse_reserved_list,
}
use inhive_core.Share.Awg.Grammar.{Chain, validate_obf_spec_iff}

-- The standard text of a key of 32 bytes.
abbrev pub IsKey : Library → String → Type 0
IsKey l k = (raw : List ℕ) × (length raw ≡ 32) × (k ≡ l.encode_bytes raw)

-- The key that comes of a text: none of a blank one.
abbrev pub IsKeyOf : Library → String → String → Type 0
IsKeyOf l val k = ((l.trim_space val ≡ "") × (k ≡ "")) ⊎ IsKey l k

key_of_bytes-IsKey :
    (l : Library) (name : String) (raw : Option (List ℕ)) → IfOk (IsKey l) (key_of_bytes l name raw)
key_of_bytes-IsKey l name none = tt
key_of_bytes-IsKey l name (some raw) =
    if_case (IfOk (IsKey l)) (length raw == 32) (ok (l.encode_bytes raw)) (fail _)
      (λ e. (raw, ground arith, refl)) (λ e. tt)

pub normalize_wg_key-IsKeyOf :
    (l : Library) (name val : String) → IfOk (IsKeyOf l val) (normalize_wg_key l name val)
unfolding normalize_wg_key
normalize_wg_key-IsKeyOf l name val =
    let k = l.trim_space val in
    let raw =
      l.decode_bytes (padded (trim_padding (replace_char 95 "/" (replace_char 45 "+" k)))) in
    if_case (IfOk (IsKeyOf l val)) (same k "") (ok "") (key_of_bytes l name raw)
      (λ e. inl ((eq_iff k "").0 e, refl))
      (λ e.
        IfOk-of (IsKeyOf l val) (key_of_bytes l name raw)
          (λ key h. inr (IfOk-use (IsKey l) (key_of_bytes-IsKey l name raw) h)))

pub normalize_wg_key-optional :
    (l : Library) (name val : String)
    → IfOk (λ (k : String). (k ≡ "") ⊎ IsKey l k) (normalize_wg_key l name val)
normalize_wg_key-optional l name val =
    IfOk-of (λ (k : String). (k ≡ "") ⊎ IsKey l k) (normalize_wg_key l name val)
      (λ k e. elim (IfOk-use (IsKeyOf l val) (normalize_wg_key-IsKeyOf l name val) e) [
        | inl blank ↦ inl blank.1
        | inr key ↦ inr key
      ])

-- A decimal number of 32 bits, or two of them in order.
abbrev pub IsHeader : Library → String → Type 0
IsHeader l spec =
    (spec ≡ "")
    ⊎ (((a : String) × (n : ℕ) × (l.split spec "-" ≡ a ∷ []) × (l.parse_uint 32 a ≡ some n))
        ⊎ ((a : String) × (b : String) × (n : ℕ) × (m : ℕ) × (l.split spec "-" ≡ a ∷ (b ∷ []))
            × (l.parse_uint 32 a ≡ some n)
            × (l.parse_uint 32 b ≡ some m)
            × (n ≤ m)))

header_number-ok :
    (name : String) (r : Option ℕ) → header_number name r ≡ ok tt → (n : ℕ) × (r ≡ some n)
header_number-ok name none e = cc (e)
header_number-ok name (some n) e = (n, refl)

header_range-ok :
    (name : String) (r s : Option ℕ)
    → header_range name r s ≡ ok tt
    → (n : ℕ) × (m : ℕ) × (r ≡ some n) × (s ≡ some m) × (n ≤ m)
header_range-ok name none s e = cc (e)
header_range-ok name (some n) none e = cc (e)
header_range-ok name (some n) (some m) e = elim (Bool-cases (ltb m n)) [
  | inl h ↦ cc (e, h)
  | inr h ↦ (n, m, refl, refl, ground arith)
]

header_parts-IsHeader :
    (l : Library) (name spec : String) (parts : List String)
    → l.split spec "-" ≡ parts
    → header_parts l name parts ≡ ok tt
    → IsHeader l spec
header_parts-IsHeader l name spec [] p e = cc (e)
header_parts-IsHeader l name spec (a ∷ []) p e =
    let n = header_number-ok name (l.parse_uint 32 a) e in inr (inl (a, n.0, p, n.1))
header_parts-IsHeader l name spec (a ∷ (b ∷ [])) p e =
    let n = header_range-ok name (l.parse_uint 32 a) (l.parse_uint 32 b) e in
    inr (inr (a, b, n.0, n.1, p, n.2, n.3, n.4))
header_parts-IsHeader l name spec (a ∷ (b ∷ (c ∷ more))) p e = cc (e)

validate_magic_header-IsHeader :
    (l : Library) (name spec : String) → validate_magic_header l name spec ≡ ok tt → IsHeader l spec
unfolding validate_magic_header
validate_magic_header-IsHeader l name spec e =
    if_case (λ (x : Outcome (Unit {0})). x ≡ ok tt → IsHeader l spec) (same spec "") (ok tt) _
      (λ h k. inl ((eq_iff spec "").0 h))
      (λ h k. header_parts-IsHeader l name spec (l.split spec "-") refl k) e

then_ok :
    (call next : Outcome (Unit {0}))
    → (call >>= λ u. next) ≡ ok tt
    → (call ≡ ok tt) × (next ≡ ok tt)
then_ok (ok u) next e = (refl, e)
then_ok (fail m) next e = cc (e)
then_ok panic next e = cc (e)

all_headers-IsHeader :
    (l : Library) (specs : List (String × String))
    → all_headers l specs ≡ ok tt
    → All (λ (s : String × String). IsHeader l s.1) specs
all_headers-IsHeader l [] e = tt
all_headers-IsHeader l ((name, spec) ∷ more) e =
    let both = then_ok (validate_magic_header l name spec) (all_headers l more) e in
    (validate_magic_header-IsHeader l name spec both.0, all_headers-IsHeader l more both.1)

all_chains-Chain :
    (l : Library) (specs : List String) → all_chains l specs ≡ ok tt → All (Chain l) specs
all_chains-Chain l [] e = tt
all_chains-Chain l (spec ∷ more) e =
    let both = then_ok (validate_obf_spec l spec) (all_chains l more) e in
    ((validate_obf_spec_iff l spec).0 both.0, all_chains-Chain l more both.1)

-- Numbers that are not negative, and specifications that the runtime reads.
abbrev pub IsCount : ℤ → Type 0
IsCount i = (n : ℕ) × (i ≡ pos n)

abbrev pub IsObfuscation : Library → Obfuscation → Type 0
IsObfuscation l o =
    All IsCount (o.jc ∷ (o.jmin ∷ (o.jmax ∷ (o.s1 ∷ (o.s2 ∷ (o.s3 ∷ (o.s4 ∷ (o.itime ∷ []))))))))
    × All (IsHeader l) (o.h1 ∷ (o.h2 ∷ (o.h3 ∷ (o.h4 ∷ []))))
    × All (Chain l) (o.i1 ∷ (o.i2 ∷ (o.i3 ∷ (o.i4 ∷ (o.i5 ∷ [])))))

clamp_awg_int-IsCount : (i : ℤ) (least : ℕ) → IsCount (clamp_awg_int i least)
unfolding clamp_awg_int
clamp_awg_int-IsCount (pos n) least =
    if_both IsCount (not (n == 0) && ltb n least) (0, refl) (n, refl)
clamp_awg_int-IsCount (negsuc n) least = (0, refl)

headers_of :
    (l : Library) (o : Obfuscation)
    → All
        (λ (s : String × String). IsHeader l s.1)
        (("H1", o.h1) ∷ (("H2", o.h2) ∷ (("H3", o.h3) ∷ (("H4", o.h4) ∷ []))))
    → All (IsHeader l) (o.h1 ∷ (o.h2 ∷ (o.h3 ∷ (o.h4 ∷ []))))
headers_of l o h = h

pub clamped-IsObfuscation :
    (l : Library) (o : Obfuscation)
    → validate_specs l (clamped o) ≡ ok tt
    → IsObfuscation l (clamped o)
unfolding clamped validate_specs
clamped-IsObfuscation l o e =
    let both =
      then_ok (all_headers l (("H1", o.h1) ∷ (("H2", o.h2) ∷ (("H3", o.h3) ∷ (("H4", o.h4) ∷ [])))))
        (all_chains l (o.i1 ∷ (o.i2 ∷ (o.i3 ∷ (o.i4 ∷ (o.i5 ∷ [])))))) e in
    let c = clamp_awg_int-IsCount in
    (
      (
        c o.jc 1,
        (
          c o.jmin 1,
          (c o.jmax 1, (c o.s1 0, (c o.s2 0, (c o.s3 0, (c o.s4 0, (c o.itime 0, tt)))))),
        ),
      ),
      headers_of l o (
          all_headers-IsHeader l
            (("H1", o.h1) ∷ (("H2", o.h2) ∷ (("H3", o.h3) ∷ (("H4", o.h4) ∷ [])))) both.0),
      all_chains-Chain l (o.i1 ∷ (o.i2 ∷ (o.i3 ∷ (o.i4 ∷ (o.i5 ∷ []))))) both.1,
    )

-- No reserved bytes, or three.
abbrev pub IsReserved : List ℕ → Type 0
IsReserved bytes = (length bytes ≡ 0) ⊎ (length bytes ≡ 3)

pub is_reserved-IsReserved : (bytes : List ℕ) → is_reserved bytes ≡ true → IsReserved bytes
is_reserved-IsReserved bytes e = ground arith

checked_reserved-IsReserved : (r : Option (List ℕ)) → IfOk IsReserved (checked_reserved r)
checked_reserved-IsReserved none = tt
checked_reserved-IsReserved (some bytes) =
    if_case (IfOk IsReserved) (is_reserved bytes) (ok bytes) (fail _)
      (λ e. is_reserved-IsReserved bytes e) (λ e. tt)

pub parse_reserved_list-IsReserved :
    (l : Library) (raw : String) → IfOk IsReserved (parse_reserved_list l raw)
unfolding parse_reserved_list
parse_reserved_list-IsReserved l raw =
    checked_reserved-IsReserved (reserved_bytes l (l.split raw ","))
