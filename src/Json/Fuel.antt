-- ===== src/Json/Fuel.antt =====
-- What the scanner of src/macp_sdk/multi_round.py reads of a string leaves less text.
use macp_sdk_python.Json.{
  expect, hex4, hex_digits, hex_value, low_surrogate, prepend, simple_escape, string, string_loop,
  unescape, unicode_escape,
}
use macp_sdk_python.Prelude.{
  Bool, Option, Option-cases, [], arith, inl, inr, length, none, some, suc, zero, ℕ, ◌*◌, ◌+◌, ◌<◌,
  ◌∷◌, ◌≡◌, ◌≤◌,
}
use macp_sdk_python.Text.{Text}

pub hex_digits-shrinks :
    (n total v : ℕ) (text rest : Text)
    → hex_digits n total text ≡ some (v, rest)
    → length rest ≤ length text
unfolding hex_digits
hex_digits-shrinks zero total v text rest h = ground (arith, h)
hex_digits-shrinks (suc n) total v [] rest h = cc h
hex_digits-shrinks (suc n) total v (c ∷ text) rest h = elim (Option-cases (hex_value c)) [
  | inl u ↦ ground (arith, u, h)
  | inr (d, y) ↦
      omega (arith, hex_digits-shrinks n (16 * total + d) v text rest (ground (arith, y, h)))
]

low_surrogate-shrinks :
    (code v : ℕ) (text rest : Text)
    → low_surrogate code text ≡ some (v, rest)
    → length rest ≤ length text
unfolding low_surrogate
low_surrogate-shrinks code v [] rest h = cc h
low_surrogate-shrinks code v (a ∷ []) rest h = cc h
low_surrogate-shrinks code v (a ∷ b ∷ text) rest h = elim (Option-cases (hex4 text)) [
  | inl u ↦ ground (arith, u, h)
  | inr ((low, after), y) ↦
      let digits = hex_digits-shrinks 4 0 low text after y in ground (arith, y, h, digits)
]

unicode_escape-shrinks :
    (decode : Bool) (v : ℕ) (text rest : Text)
    → unicode_escape decode text ≡ some (v, rest)
    → length rest ≤ length text
unfolding unicode_escape
unicode_escape-shrinks decode v text rest h = elim (Option-cases (hex4 text)) [
  | inl u ↦ ground (arith, u, h)
  | inr ((code, after), y) ↦
      let digits = hex_digits-shrinks 4 0 code text after y in
      ground (arith, y, h, digits, low_surrogate-shrinks code v after rest)
]

pub unescape-shrinks :
    (decode : Bool) (v : ℕ) (text rest : Text)
    → unescape decode text ≡ some (v, rest)
    → length rest < length text
unfolding unescape
unescape-shrinks decode v [] rest h = cc h
unescape-shrinks decode v (esc ∷ text) rest h = elim (Option-cases (simple_escape esc)) [
  | inl u ↦ ground (arith, u, h, unicode_escape-shrinks decode v text rest)
  | inr (c, y) ↦ ground (arith, y, h)
]

prepend-some :
    (c : ℕ) (m : Option (Text × Text)) (out rest : Text)
    → prepend c m ≡ some (out, rest)
    → (inner : Text) × (m ≡ some (inner, rest))
prepend-some c none out rest h = cc h
prepend-some c (some (inner, after)) out rest h = (inner, cc h)

string_loop-shrinks :
    (fuel : ℕ) (decode : Bool) (text out rest : Text)
    → string_loop fuel decode text ≡ some (out, rest)
    → length rest < length text
unfolding string_loop
string_loop-shrinks zero decode text out rest h = cc h
string_loop-shrinks (suc fuel) decode [] out rest h = cc h
string_loop-shrinks (suc fuel) decode (c ∷ text) out rest h =
    let shorter =
      λ (d : ℕ) (after : Text) (e : prepend d (string_loop fuel decode after) ≡ some (out, rest)).
        let (inner, found) = prepend-some d (string_loop fuel decode after) out rest e in
        string_loop-shrinks fuel decode after inner rest found in
    elim (Option-cases (unescape decode text)) [
      | inl u ↦ ground (arith, u, h, shorter c text)
      | inr ((code, after), y) ↦ ground (
        arith,
        y,
        h,
        shorter c text,
        shorter code after,
        unescape-shrinks decode code text after y,
      )
    ]

pub string-shrinks :
    (decode : Bool) (text out rest : Text)
    → string decode text ≡ some (out, rest)
    → length rest < length text
unfolding string expect
string-shrinks decode [] out rest h = cc h
string-shrinks decode (c ∷ text) out rest h =
    ground (arith, h, string_loop-shrinks (suc (length text)) decode text out rest)
