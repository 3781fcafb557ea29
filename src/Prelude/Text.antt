-- ===== src/Prelude/Text.antt =====
-- Tests on texts: equality, prefix, and the search for a part.
use Prim.Native.String
use Prim.Native.String.{String}
use mathlib.Core.Bool.{Bool, false, ◌||◌, false≢true}
use mathlib.Core.Path.{◌≡◌, sym, ◌∙◌}
use mathlib.Core.Logic.{◌≢◌, inl, inr}
use text.Mathlib.Text.{◌==◌, starts_with}
use text.Mathlib.TextEquality.{eq_iff}
use inhive_core.Prelude.Tests.{Bool-cases}

abbrev pub same : String → String → Bool
same a b = a == b

-- `strings.HasPrefix`.
abbrev pub has_prefix : String → String → Bool
has_prefix s p = starts_with s p

-- `strings.Contains`.
unfoldable pub has_part : String → String → Bool
has_part String.[] t = starts_with String.[] t
has_part (String.◌∷◌ c s) t = starts_with (String.◌∷◌ c s) t || has_part s t

-- Go's `+` on strings.
abbrev pub join : String → String → String
join a b = String.◌++◌ a b

pub same-ne : (a b : String) → a ≢ b → same a b ≡ false
same-ne a b h = elim (Bool-cases (same a b)) [ inl e ↦ absurd (h ((eq_iff a b).0 e)) | inr e ↦ e ]

-- Two texts that the test tells apart differ.
pub apart : (a b : String) → same a b ≡ false → a ≢ b
apart a b d e = absurd (false≢true (sym d ∙ (eq_iff a b).1 e))
