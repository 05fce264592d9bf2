-- ===== src/Json/Skips.antt =====
-- Every step of the scanner of JSON values moves on: what it leaves is shorter.
use macp_sdk_python.Json.{expect, string}
use macp_sdk_python.Json.Fuel.{string-shrinks}
use macp_sdk_python.Json.Values.{
  digits, drop_digits, exponent_part, fraction_part, integer_part, literal_word, number, skip_key,
  starts, strip_word, tail, ws,
}
use macp_sdk_python.Prelude.{
  Option-cases, [], arith, false, if◌then◌else◌, inl, inr, length, some, ℕ, ◌+◌, ◌<◌, ◌∷◌, ◌≡◌, ◌≤◌,
}
use macp_sdk_python.Prelude.Options.{>>=-some}
use macp_sdk_python.Text.{Text, codes}

pub length-ws : (text : Text) → length (ws text) ≤ length text
unfolding ws
length-ws [] = omega arith
length-ws (c ∷ text) = ground (arith, length-ws text)

length-drop_digits : (text : Text) → length (drop_digits text) ≤ length text
unfolding drop_digits
length-drop_digits [] = omega arith
length-drop_digits (c ∷ text) = ground (arith, length-drop_digits text)

pub length-tail : (text : Text) → length (tail text) ≤ length text
length-tail [] = omega arith
length-tail (c ∷ text) = omega arith

pub expect-shrinks :
    (c : ℕ) (text rest : Text) → expect c text ≡ some rest → length rest < length text
unfolding expect
expect-shrinks c [] rest h = cc h
expect-shrinks c (d ∷ text) rest h = ground (arith, h)

digits-shrinks : (text rest : Text) → digits text ≡ some rest → length rest < length text
unfolding digits
digits-shrinks [] rest h = cc h
digits-shrinks (c ∷ text) rest h = ground (arith, h, length-drop_digits text)

integer_part-shrinks :
    (text rest : Text) → integer_part text ≡ some rest → length rest < length text
unfolding integer_part starts
integer_part-shrinks [] rest h = digits-shrinks [] rest (ground (arith, h))
integer_part-shrinks (c ∷ text) rest h = ground (arith, h, digits-shrinks (c ∷ text) rest)

fraction_part-shrinks :
    (text rest : Text) → fraction_part text ≡ some rest → length rest ≤ length text
unfolding fraction_part
fraction_part-shrinks text rest h =
    ground (arith, h, digits-shrinks (tail text) rest, length-tail text)

exponent_part-shrinks :
    (text rest : Text) → exponent_part text ≡ some rest → length rest ≤ length text
unfolding exponent_part
exponent_part-shrinks text rest h = ground (
  arith,
  h,
  digits-shrinks (tail text) rest,
  digits-shrinks (tail (tail text)) rest,
  length-tail text,
  length-tail (tail text),
)

pub number-shrinks : (text rest : Text) → number text ≡ some rest → length rest < length text
unfolding number
number-shrinks text rest h =
    let signless = if starts b'-' text then tail text else text in
    let (after_integer, i, then_fraction) = >>=-some (integer_part signless) _ rest h in
    let (after_fraction, f, x) = >>=-some (fraction_part after_integer) _ rest then_fraction in
    let bound : length signless ≤ length text = ground (arith, length-tail text) in
    omega (
      arith,
      bound,
      integer_part-shrinks signless after_integer i,
      fraction_part-shrinks after_integer after_fraction f,
      exponent_part-shrinks after_fraction rest x,
    )

pub skip_key-shrinks : (text rest : Text) → skip_key text ≡ some rest → length rest < length text
unfolding skip_key
skip_key-shrinks text rest h =
    let ((out, after), s, e) = >>=-some (string false text) _ rest h in
    omega (
      arith,
      string-shrinks false text out after s,
      length-ws after,
      expect-shrinks b':' (ws after) rest e,
    )

strip_word-shrinks :
    (word text rest : Text)
    → strip_word word text ≡ some rest
    → length rest + length word ≡ length text
unfolding strip_word
strip_word-shrinks [] text rest h = ground (arith, h)
strip_word-shrinks (c ∷ word) [] rest h = cc h
strip_word-shrinks (c ∷ word) (d ∷ text) rest h =
    ground (arith, h, strip_word-shrinks word text rest)

pub literal_word-shrinks :
    (text rest : Text) → literal_word text ≡ some rest → length rest < length text
unfolding literal_word codes
literal_word-shrinks text rest h = elim (Option-cases (strip_word (codes "true") text)) [
  | inr (after, y) ↦ ground (arith, y, h, strip_word-shrinks (codes "true") text after y)
  | inl n ↦ elim (Option-cases (strip_word (codes "false") text)) [
    | inr (after, y) ↦ ground (arith, n, y, h, strip_word-shrinks (codes "false") text after y)
    | inl m ↦ ground (arith, n, m, h, strip_word-shrinks (codes "null") text rest)
  ]
]
