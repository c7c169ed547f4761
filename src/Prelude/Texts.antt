-- ===== src/Prelude/Texts.antt =====
-- Texts that the program takes apart: lists of code points. Letters are ASCII, as in every ticker.
use Prim.Native.Nat.{ℕ, ◌+◌, ◌-◌}
use Prim.Native.Char.{code}
use Prim.Native.String.{String}
use mathlib.Core.Bool.{Bool, true, false, ◌&&◌, ◌||◌}
use mathlib.Core.List.{List, [], ◌∷◌, map}
use forecastology.Prelude.Tests.{leb, ◌==◌, if◌then◌else◌}

abbrev pub Text : Type 0
Text = List ℕ

abbrev pub codes : String → Text
codes String.[] = []
codes (String.◌∷◌ c s) = code c ∷ codes s

abbrev upper_code : ℕ → ℕ
upper_code c = if leb b'a' c && leb c b'z' then c - 32 else c

abbrev lower_code : ℕ → ℕ
lower_code c = if leb b'A' c && leb c b'Z' then c + 32 else c

-- `s.upper()` and `s.lower()`
unfoldable pub upper : Text → Text
upper s = map upper_code s

unfoldable pub lower : Text → Text
lower s = map lower_code s

unfoldable pub text_eq : Text → Text → Bool
text_eq [] [] = true
text_eq (c ∷ s) (d ∷ t) = c == d && text_eq s t
text_eq _ _ = false

-- `s.startswith(p)`
unfoldable pub has_prefix : Text → Text → Bool
has_prefix [] s = true
has_prefix (c ∷ p) [] = false
has_prefix (c ∷ p) (d ∷ s) = c == d && has_prefix p s

-- `p in s`
unfoldable pub occurs : Text → Text → Bool
unfolding has_prefix
occurs p [] = has_prefix p []
occurs p (c ∷ s) = has_prefix p (c ∷ s) || occurs p s

-- `s.split("-")[0]`
unfoldable pub first_part : Text → Text
first_part [] = []
first_part (c ∷ s) = let rest = first_part s in if c == b'-' then [] else c ∷ rest

-- What follows the first dash, `[]` if there is none.
unfoldable pub after_dash : Text → Text
after_dash [] = []
after_dash (c ∷ s) = let rest = after_dash s in if c == b'-' then s else rest

-- Membership of a text in a configured set of texts.
unfoldable pub has_text : Text → List Text → Bool
unfolding text_eq
has_text s [] = false
has_text s (t ∷ ts) = text_eq s t || has_text s ts
