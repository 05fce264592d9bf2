-- ===== src/Json/Values.antt =====
-- src/macp_sdk/multi_round.py: the scanner of JSON values (`_ws`, `_number`, `_ignore_value`, `_json_value`).
use macp_sdk_python.Json.{expect, string}
use macp_sdk_python.Prelude.{
  Bool, List, Option, [], eqb, false, if◌then◌else◌, leb, length, none, some, suc, true, zero, ℕ,
  ◌&&◌, ◌||◌, ◌∷◌,
}
use macp_sdk_python.Prelude.Options.{◌>>=◌}
use macp_sdk_python.Text.{Text, behind, codes}

unfoldable pub starts : ℕ → Text → Bool
starts char [] = false
starts char (c ∷ _) = eqb c char

abbrev pub tail : Text → Text
tail [] = []
tail (_ ∷ rest) = rest

abbrev is_space : ℕ → Bool
is_space c = eqb c b' ' || eqb c b'\t' || eqb c b'\n' || eqb c b'\r'

-- `_ws`
unfoldable pub ws : Text → Text
ws [] = []
ws (c ∷ rest) = let later = ws rest in if is_space c then later else c ∷ rest

abbrev is_decimal : ℕ → Bool
is_decimal c = leb b'0' c && leb c b'9'

unfoldable pub drop_digits : Text → Text
drop_digits [] = []
drop_digits (c ∷ rest) = let later = drop_digits rest in if is_decimal c then later else c ∷ rest

-- `digits` inside `_number`: one digit at least.
unfoldable pub digits : Text → Option Text
unfolding drop_digits
digits [] = none
digits (c ∷ rest) = if is_decimal c then some (drop_digits rest) else none

abbrev starts_digit : Text → Bool
starts_digit [] = false
starts_digit (c ∷ _) = is_decimal c

-- The integer, the fraction and the exponent of a number.
unfoldable pub integer_part : Text → Option Text
unfolding starts digits
integer_part rest =
    if starts b'0' rest
    then (if starts_digit (tail rest) then none else some (tail rest))
    else digits rest

unfoldable pub fraction_part : Text → Option Text
unfolding starts digits
fraction_part rest = if starts b'.' rest then digits (tail rest) else some rest

unfoldable pub exponent_part : Text → Option Text
unfolding starts digits
exponent_part rest =
    if starts b'e' rest || starts b'E' rest
    then digits
        (if starts b'+' (tail rest) || starts b'-' (tail rest) then tail (tail rest) else tail rest)
    else some rest

unfoldable pub number : Text → Option Text
unfolding starts integer_part fraction_part exponent_part
number rest = do
  after_integer ← integer_part (if starts b'-' rest then tail rest else rest)
  after_fraction ← fraction_part after_integer
  exponent_part after_fraction

-- `_expect(text, _ws(text, _string(text, pos, decode=False)[1]), ":")`
unfoldable pub skip_key : Text → Option Text
unfolding string expect ws
skip_key rest = do (_, after) ← string false rest; expect b':' (ws after)

-- `text.startswith(word, pos)`, and what is behind the word.
unfoldable pub strip_word : Text → Text → Option Text
strip_word [] rest = some rest
strip_word (c ∷ word) [] = none
strip_word (c ∷ word) (d ∷ rest) =
    let later = strip_word word rest in if eqb c d then later else none

unfoldable pub literal_word : Text → Option Text
unfolding strip_word codes
literal_word rest = elim (strip_word (codes "true") rest) [
  | some after ↦ some after
  | none ↦ elim (strip_word (codes "false") rest) [
    | some after ↦ some after
    | none ↦ strip_word (codes "null") rest
  ]
]

-- What the first half of a round of `_ignore_value` does: it opens a container and wants another value, or
-- it is behind a value. The list holds the closing characters, innermost first.
pub data Turn : Type 0 where
  opened ended : List ℕ → Text → Turn

unfoldable pub open_container : ℕ → List ℕ → Text → Option Turn
unfolding starts ws skip_key
open_container closer closers rest =
    if starts closer (ws rest)
    then some (ended closers (tail (ws rest)))
    else if eqb closer b'}'
    then skip_key (ws rest) >>= (λ after. some (opened (closer ∷ closers) after))
    else some (opened (closer ∷ closers) (ws rest))

unfoldable pub begin : List ℕ → Text → Option Turn
unfolding open_container string number literal_word
begin closers [] = none
begin closers (c ∷ rest) =
    if eqb c b'['
    then open_container b']' closers rest
    else if eqb c b'{'
    then open_container b'}' closers rest
    else if eqb c b'"'
    then string false (c ∷ rest) >>= (λ (_, after). some (ended closers after))
    else if eqb c b'-' || is_decimal c
    then number (c ∷ rest) >>= (λ after. some (ended closers after))
    else literal_word (c ∷ rest) >>= (λ after. some (ended closers after))

-- The second half: it closes containers, or moves to the next member of the innermost one.
unfoldable pub next_member : ℕ → Text → Option Text
unfolding starts expect ws skip_key
next_member closer rest = do
  after ← expect b',' rest
  if starts closer (ws after)
      then none
      else if eqb closer b'}'
      then skip_key (ws after)
      else some (ws after)

unfoldable pub close : List ℕ → Text → Option (List ℕ × Text)
unfolding starts ws next_member
close [] rest = some ([], rest)
close (closer ∷ closers) rest = elim (starts closer (ws rest)) [
  | true ↦ close closers (tail (ws rest))
  | false ↦ next_member closer (ws rest) >>= λ after. some (closer ∷ closers, after)
]

-- The loop of `_ignore_value`. Each round takes a character at least.
unfoldable pub ignore_loop : ℕ → List ℕ → Text → Option Text
unfolding begin close ws
ignore_loop zero closers rest = none
ignore_loop (suc fuel) closers rest = do
  turn ← begin closers (ws rest)
  elim turn [
    | opened inner after ↦ ignore_loop fuel inner after
    | ended outer after ↦ close outer after >>= λ (left, behind). elim left [
      | [] ↦ some behind
      | closer ∷ more ↦ ignore_loop fuel (closer ∷ more) behind
    ]
  ]

unfoldable pub ignore_value : Text → Option Text
unfolding ignore_loop
ignore_value rest = ignore_loop (suc (length rest)) [] rest
