-- ===== src/Text.antt =====
-- Text as the list of its code points, where the program walks the characters of a `str`.
use Prim.Native.Char.{code}
use Prim.Native.String.{◌++◌ as str_append}
use text.Mathlib.TextLemmas.{nil-append, cons-append}
use text.Mathlib.TextEquality.{Char-path}
use macp_sdk_python.Prelude.{List, String, [], ap, arith, eqb, false, refl, ℕ, ◌++◌, ◌∙◌, ◌∷◌, ◌≡◌}

abbrev pub Text : Type 0
Text = List ℕ

-- `String` has its own `[]` and `∷`.
unfoldable pub codes : String → Text
codes String.[] = []
codes (String.◌∷◌ c s) = code c ∷ codes s

pub codes-append : (s t : String) → codes (str_append s t) ≡ codes s ++ codes t
unfolding codes
codes-append String.[] t = ap codes (nil-append t)
codes-append (String.◌∷◌ c s) t =
    ap codes (cons-append c s t) ∙ ap (λ r. code c ∷ r) (codes-append s t)

pub codes-injective : (s t : String) → codes s ≡ codes t → s ≡ t
unfolding codes
codes-injective String.[] String.[] h = refl
codes-injective String.[] (String.◌∷◌ c t) h = cc
codes-injective (String.◌∷◌ c s) String.[] h = cc
codes-injective (String.◌∷◌ c s) (String.◌∷◌ d t) h =
    let heads : code c ≡ code d = cc h in
    let tails : codes s ≡ codes t = cc h in cc (Char-path c d heads, codes-injective s t tails)

-- Two texts that begin with different characters, and what is behind the first character of one text.
pub heads_apart : {c d : ℕ} {r u : Text} → c ∷ r ≡ d ∷ u → eqb c d ≡ false → ⊥
heads_apart {c} {d} h apart = let heads : c ≡ d = cc h in ground (arith, heads, apart)

pub behind : {c d : ℕ} {r u : Text} → c ∷ r ≡ d ∷ u → r ≡ u
behind h = cc h
