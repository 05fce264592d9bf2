-- ===== src/Json/RoundTrip.antt =====
-- src/macp_sdk/commitment_hash.py and multi_round.py: the scanner of the one reads back what the other
-- escapes, so that two different texts never have one escaped form.
use mathlib.Core.List.{append_assoc}
use macp_sdk_python.Json.{
  backslash, escape, escape_body, escape_char, expect, hex4, hex_digit, hex_digits, hex_value,
  prepend, simple_escape, string, string_loop, unescape, unicode_escape,
}
use macp_sdk_python.Json.Values.{number}
use macp_sdk_python.Prelude.{
  Bool, [], ap, arith, false, length, refl, some, suc, sym, zero, ℕ, ◌%◌, ◌*◌, ◌++◌, ◌+◌, ◌/◌, ◌<◌,
  ◌∙◌, ◌∷◌, ◌≡◌,
}
use macp_sdk_python.Text.{Text}

hex_value-hex_digit : (d : ℕ) → d < 16 → hex_value (hex_digit d) ≡ some d
unfolding hex_value
hex_value-hex_digit d h = ground arith

hex_digits-step :
    (n number c d : ℕ) (rest : Text)
    → hex_value c ≡ some d
    → hex_digits (suc n) number (c ∷ rest) ≡ hex_digits n (16 * number + d) rest
unfolding hex_digits
hex_digits-step n number c d rest h = rw (h, hex_digits) refl

hex4-control :
    (c : ℕ) (rest : Text)
    → c < 0x20
    → hex4 (b'0' ∷ b'0' ∷ hex_digit (c / 16) ∷ hex_digit (c % 16) ∷ rest) ≡ some (c, rest)
unfolding hex_digits
hex4-control c rest h =
    let zero_value = hex_value-hex_digit 0 (omega arith) in
    let low = hex_digit (c % 16) ∷ rest in
    hex_digits-step 3 0 b'0' 0 (b'0' ∷ hex_digit (c / 16) ∷ low) zero_value
    ∙ hex_digits-step 2 0 b'0' 0 (hex_digit (c / 16) ∷ low) zero_value
    ∙ hex_digits-step 1 0 (hex_digit (c / 16)) (c / 16) low
        (hex_value-hex_digit (c / 16) (omega arith))
    ∙ ap (λ n. hex_digits 1 n low) {x = 16 * 0 + c / 16} {y = c / 16} (omega arith)
    ∙ hex_digits-step 0 (c / 16) (hex_digit (c % 16)) (c % 16) rest
        (hex_value-hex_digit (c % 16) (omega arith))
    ∙ ap (λ n. some (n, rest)) {x = 16 * (c / 16) + c % 16} {y = c} (omega arith)

unicode_escape-plain :
    (decode : Bool) (code : ℕ) (body rest : Text)
    → hex4 body ≡ some (code, rest)
    → code < 0xd800
    → unicode_escape decode body ≡ some (code, rest)
unfolding unicode_escape
unicode_escape-plain decode code body rest h small = rw (h, unicode_escape) (ground arith)

unescape-control :
    (decode : Bool) (c : ℕ) (rest : Text)
    → c < 0x20
    → unescape decode (b'u' ∷ b'0' ∷ b'0' ∷ hex_digit (c / 16) ∷ hex_digit (c % 16) ∷ rest)
      ≡ some (c, rest)
unfolding unescape simple_escape
unescape-control decode c rest h =
    unicode_escape-plain decode c (b'0' ∷ b'0' ∷ hex_digit (c / 16) ∷ hex_digit (c % 16) ∷ rest)
      rest (hex4-control c rest h) (omega arith)

string_loop-unescape :
    (fuel : ℕ) (decode : Bool) (code : ℕ) (body rest : Text)
    → unescape decode body ≡ some (code, rest)
    → string_loop (suc fuel) decode (backslash ∷ body) ≡ prepend code (string_loop fuel decode rest)
unfolding string_loop
string_loop-unescape fuel decode code body rest h = rw (h, string_loop) refl

-- One round reads back one escaped character.
string_loop-escape_char :
    (fuel : ℕ) (decode : Bool) (c : ℕ) (rest : Text)
    → string_loop (suc fuel) decode (escape_char c ++ rest)
      ≡ prepend c (string_loop fuel decode rest)
unfolding string_loop escape_char unescape simple_escape
string_loop-escape_char fuel decode c rest = ground (arith, unescape-control decode c rest)

escape_char-append : (c : ℕ) (body : Text) → length body < length (escape_char c ++ body)
unfolding escape_char
escape_char-append c body = ground arith

length-escape_body : (value rest : Text) → length value < length (escape_body value ++ rest)
unfolding escape_body
length-escape_body [] rest = omega arith
length-escape_body (c ∷ value) rest =
    rw (append_assoc (escape_char c) (escape_body value) rest) (
      omega
        (arith, length-escape_body value rest, escape_char-append c (escape_body value ++ rest)))

string_loop-escape_body :
    (fuel : ℕ) (decode : Bool) (value rest : Text)
    → length value < fuel
    → string_loop fuel decode (escape_body value ++ rest) ≡ some (value, rest)
unfolding escape_body
string_loop-escape_body zero decode value rest h = ground arith
string_loop-escape_body (suc fuel) decode [] rest h = unfold string_loop in refl
string_loop-escape_body (suc fuel) decode (c ∷ value) rest h =
    rw (append_assoc (escape_char c) (escape_body value) rest) (
      string_loop-escape_char fuel decode c (escape_body value ++ rest)
      ∙ ap (prepend c) (string_loop-escape_body fuel decode value rest (omega arith)))

-- The scanner of multi_round.py reads back every text that `_escape_json_string` of commitment_hash.py
-- escapes, whether it decodes or only skips, and leaves what is behind it.
pub string-escape :
    (decode : Bool) (value rest : Text) → string decode (escape value ++ rest) ≡ some (value, rest)
unfolding string expect
string-escape decode value rest =
    string_loop-escape_body (suc (length (escape_body value ++ rest))) decode value rest
      (omega (arith, length-escape_body value rest))

-- An escaped text is no beginning of another one.
pub escape-injective : (a b r s : Text) → escape a ++ r ≡ escape b ++ s → (a ≡ b) × (r ≡ s)
escape-injective a b r s h =
    let both : some (a, r) ≡ some (b, s) =
      sym (string-escape false a r) ∙ ap (string false) h ∙ string-escape false b s in
    (cc both, cc both)
