-- ===== src/Share/Convert/Words.antt =====
-- The last word of a text.
use Prim.Native.String.{String}
use Prim.Native.String.append.{cons, nil}
use Prim.Native.Char.{code}
use inhive_core.Prelude.{Bool, true, false, ◌||◌, ◌==◌, if◌then◌else◌, ◌≡◌, refl, arith, join, ◌∙◌}

unfoldable pub has_space : String → Bool
has_space String.[] = false
has_space (String.◌∷◌ c s) = (code c == 32) || has_space s

unfoldable pub last_word : String → String
last_word String.[] = ""
last_word (String.◌∷◌ c s) =
    if has_space s then last_word s else if code c == 32 then s else String.◌∷◌ c s

has_space-join : (s t : String) → has_space t ≡ true → has_space (join s t) ≡ true
unfolding has_space
has_space-join String.[] t h = rw (nil t) h
has_space-join (String.◌∷◌ c s) t h = rw (cons c s t) (ground (arith, has_space-join s t h))

last_word-join : (s t : String) → has_space t ≡ true → last_word (join s t) ≡ last_word t
unfolding last_word
last_word-join String.[] t h = rw (nil t) refl
last_word-join (String.◌∷◌ c s) t h = rw (cons c s t, has_space-join s t h) (last_word-join s t h)

sign_lem : (d : String) → join " § " d ≡ String.◌∷◌ " " (String.◌∷◌ "§" (String.◌∷◌ " " d))
sign_lem d = rw (cons " " "§ " d, cons "§" " " d, cons " " "" d, nil d) refl

sign-has_space : (d : String) → has_space (join " § " d) ≡ true
unfolding has_space
sign-has_space d = rw (sign_lem d) refl

sign-last_word : (d : String) → has_space d ≡ false → last_word (join " § " d) ≡ d
unfolding last_word has_space
sign-last_word d h = rw (sign_lem d, h) refl

pub last_word-counted : (s d : String) → has_space d ≡ false → last_word (join s (join " § " d)) ≡ d
last_word-counted s d h = last_word-join s (join " § " d) (sign-has_space d) ∙ sign-last_word d h
