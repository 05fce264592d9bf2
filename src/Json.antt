-- ===== src/Json.antt =====
-- JSON strings: src/macp_sdk/commitment_hash.py `_escape_json_string`, which writes one, and the scanner of
-- src/macp_sdk/multi_round.py, which reads one. A text at a position is the list of the characters that
-- are left; `none` is `_Malformed`.
pub mod RoundTrip
pub mod Values
pub mod Fuel
pub mod Skips
pub mod Enough
pub mod Runs
use macp_sdk_python.Prelude.{
  Bool, Option, [], eqb, if◌then◌else◌, leb, length, ltb, none, not, some, suc, zero, ℕ, ◌%◌, ◌&&◌,
  ◌*◌, ◌++◌, ◌+◌, ◌-◌, ◌/◌, ◌||◌, ◌∷◌,
}
use macp_sdk_python.Text.{Text}

abbrev pub quote : ℕ
quote = b'"'

abbrev pub backslash : ℕ
backslash = b'\\'

-- A hexadecimal digit, in lower case.
abbrev pub hex_digit : ℕ → ℕ
hex_digit d = if ltb d 10 then b'0' + d else b'a' + (d - 10)

-- `\b`, `\t`, `\n`, `\f` and `\r` as numbers, then `f"\\u{ord(ch):04x}"` below a space.
unfoldable pub escape_char : ℕ → Text
escape_char c =
    if eqb c backslash
    then backslash ∷ backslash ∷ []
    else if eqb c quote
    then backslash ∷ quote ∷ []
    else if eqb c 8
    then backslash ∷ b'b' ∷ []
    else if eqb c 12
    then backslash ∷ b'f' ∷ []
    else if eqb c 10
    then backslash ∷ b'n' ∷ []
    else if eqb c 13
    then backslash ∷ b'r' ∷ []
    else if eqb c 9
    then backslash ∷ b't' ∷ []
    else if ltb c 0x20
    then backslash ∷ b'u' ∷ b'0' ∷ b'0' ∷ hex_digit (c / 16) ∷ hex_digit (c % 16) ∷ []
    else c ∷ []

unfoldable pub escape_body : Text → Text
escape_body [] = quote ∷ []
escape_body (c ∷ value) = escape_char c ++ escape_body value

-- `_escape_json_string`
abbrev pub escape : Text → Text
escape value = quote ∷ escape_body value

-- `int(c, 16)` of a character of `_HEX`
unfoldable pub hex_value : ℕ → Option ℕ
hex_value c =
    if leb b'0' c && leb c b'9'
    then some (c - b'0')
    else if leb b'a' c && leb c b'f'
    then some (c - b'a' + 10)
    else if leb b'A' c && leb c b'F'
    then some (c - b'A' + 10)
    else none

-- `_hex4`: four digits, most significant first.
unfoldable pub hex_digits : ℕ → ℕ → Text → Option (ℕ × Text)
hex_digits zero total text = some (total, text)
hex_digits (suc n) total [] = none
hex_digits (suc n) total (c ∷ text) = elim (hex_value c) [
  | none ↦ none
  | some d ↦ hex_digits n (16 * total + d) text
]

abbrev pub hex4 : Text → Option (ℕ × Text)
hex4 = hex_digits 4 0

-- `'"\\/\b\f\n\r\t'[_SIMPLE_ESCAPES.index(esc)]`
unfoldable pub simple_escape : ℕ → Option ℕ
simple_escape esc =
    if eqb esc quote || eqb esc backslash || eqb esc b'/'
    then some esc
    else if eqb esc b'b'
    then some 8
    else if eqb esc b'f'
    then some 12
    else if eqb esc b'n'
    then some 10
    else if eqb esc b'r'
    then some 13
    else if eqb esc b't'
    then some 9
    else none

abbrev pub between : ℕ → ℕ → ℕ → Bool
between lo hi code = leb lo code && leb code hi

-- The low half of a surrogate pair, after its high half `code`.
unfoldable pub low_surrogate : ℕ → Text → Option (ℕ × Text)
low_surrogate code (a ∷ b ∷ text) =
    if eqb a backslash && eqb b b'u'
    then elim (hex4 text) [
      | none ↦ none
      | some (low, rest) ↦
          if between 0xdc00 0xdfff low
          then some (0x10000 + (code - 0xd800) * 1024 + (low - 0xdc00), rest)
          else none
    ]
    else none
low_surrogate code (a ∷ []) = none
low_surrogate code [] = none

unfoldable pub unicode_escape : Bool → Text → Option (ℕ × Text)
unfolding low_surrogate
unicode_escape decode text = elim (hex4 text) [
  | none ↦ none
  | some (code, rest) ↦
      if decode && between 0xdc00 0xdfff code
      then none
      else if decode && between 0xd800 0xdbff code
      then low_surrogate code rest
      else some (code, rest)
]

-- What follows a backslash: a character, and the text after it.
unfoldable pub unescape : Bool → Text → Option (ℕ × Text)
unfolding simple_escape unicode_escape
unescape decode [] = none
unescape decode (esc ∷ text) = elim (simple_escape esc) [
  | some c ↦ some (c, text)
  | none ↦ if eqb esc b'u' then unicode_escape decode text else none
]

-- `out.append(c)` before what the rest of the loop appends.
abbrev pub prepend : ℕ → Option (Text × Text) → Option (Text × Text)
prepend c none = none
prepend c (some (out, rest)) = some (c ∷ out, rest)

-- The loop of `_string`. Each round takes a character at least.
unfoldable pub string_loop : ℕ → Bool → Text → Option (Text × Text)
string_loop zero decode text = none
string_loop (suc fuel) decode [] = none
string_loop (suc fuel) decode (c ∷ text) =
    if eqb c quote
    then some ([], text)
    else if ltb c 0x20
    then none
    else if not (eqb c backslash)
    then prepend c (string_loop fuel decode text)
    else elim (unescape decode text) [
      | none ↦ none
      | some (code, rest) ↦ prepend code (string_loop fuel decode rest)
    ]

unfoldable pub expect : ℕ → Text → Option Text
expect char [] = none
expect char (c ∷ text) = if eqb c char then some text else none

-- `_string`
unfoldable pub string : Bool → Text → Option (Text × Text)
unfolding expect string_loop
string decode text = elim (expect quote text) [
  | none ↦ none
  | some rest ↦ string_loop (suc (length rest)) decode rest
]
