-- ===== src/Validation/Patterns.antt =====
-- src/macp_sdk/validation.py: its regular expressions, as lists of tests on the code points of a text.
use macp_sdk_python.Prelude.{
  Bool, List, String, [], eqb, false, is_empty, leb, ltb, suc, true, zero, ℕ, ◌&&◌, ◌-◌, ◌||◌, ◌∷◌,
}
use macp_sdk_python.Text.{Text, codes}

-- `_UUID_SHAPE_RE`, `_UUID_V4V7_RE` and `_BASE64URL_RE` use these classes.
abbrev pub Test : Type 0
Test = ℕ → Bool

abbrev pub in_range : ℕ → ℕ → Test
in_range lo hi c = leb lo c && leb c hi

-- `[0-9]`, `[a-f]`, `[A-F]`, `[0-9a-f]` and `[0-9a-fA-F]`
abbrev pub is_digit : Test
is_digit = in_range b'0' b'9'

abbrev pub lower_hex : Test
lower_hex c = is_digit c || in_range b'a' b'f' c

abbrev pub any_hex : Test
any_hex c = is_digit c || in_range b'a' b'f' c || in_range b'A' b'F' c

abbrev pub is_hyphen : Test
is_hyphen c = eqb c b'-'

-- `[47]` and `[89ab]`
abbrev pub version_nibble : Test
version_nibble c = eqb c b'4' || eqb c b'7'

abbrev pub variant_nibble : Test
variant_nibble c = eqb c b'8' || eqb c b'9' || eqb c b'a' || eqb c b'b'

-- `[A-Za-z0-9_-]`
abbrev pub base64url : Test
base64url c =
    in_range b'A' b'Z' c || in_range b'a' b'z' c || is_digit c || eqb c b'_' || is_hyphen c

-- `$` of a Python regular expression: the end, or a line feed that ends the text.
abbrev pub at_end : List ℕ → Bool
at_end [] = true
at_end (c ∷ []) = eqb c 10
at_end (c ∷ d ∷ s) = false

-- `re.match` of one test after the other and `$`
unfoldable pub matches : List Test → List ℕ → Bool
matches [] s = at_end s
matches (test ∷ tests) [] = false
matches (test ∷ tests) (c ∷ s) = test c && matches tests s

-- `re.match` of `test{lo,hi}$`
unfoldable pub matches_run : Test → ℕ → ℕ → List ℕ → Bool
matches_run test lo hi [] = eqb lo 0
matches_run test lo hi (c ∷ s) =
    let more = matches_run test (lo - 1) (hi - 1) s in
    (eqb lo 0 && at_end (c ∷ s)) || (ltb 0 hi && test c && more)

-- `test{n}` in front of a pattern
abbrev pub times : ℕ → Test → List Test → List Test
times zero test rest = rest
times (suc n) test rest = test ∷ times n test rest

abbrev pub uuid_shape : List Test
uuid_shape = times 8 any_hex (
    is_hyphen
    ∷ times 4 any_hex (
        is_hyphen
        ∷ times 4 any_hex (is_hyphen ∷ times 4 any_hex (is_hyphen ∷ times 12 any_hex []))))

abbrev pub uuid_v4v7 : List Test
uuid_v4v7 = times 8 lower_hex (
    is_hyphen
    ∷ times 4 lower_hex (
        is_hyphen
        ∷ version_nibble
        ∷ times 3 lower_hex
            (is_hyphen ∷ variant_nibble ∷ times 3 lower_hex (is_hyphen ∷ times 12 lower_hex []))))

-- `re.fullmatch` of one test after the other
unfoldable pub full_matches : List Test → Text → Bool
full_matches [] s = is_empty s
full_matches (test ∷ tests) [] = false
full_matches (test ∷ tests) (c ∷ s) = test c && full_matches tests s

-- A literal in front of a pattern
abbrev pub literal : Text → List Test → List Test
literal [] rest = rest
literal (c ∷ s) rest = (λ d. eqb d c) ∷ literal s rest

-- commitment_hash.py `_HASH_RE`, and its predicate
abbrev pub hash_pattern : List Test
hash_pattern = literal (codes "sha256:") (times 64 lower_hex [])

unfoldable pub is_canonical_commitment_hash : String → Bool
unfolding full_matches codes
is_canonical_commitment_hash value = full_matches hash_pattern (codes value)
