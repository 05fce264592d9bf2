-- ===== src/Json/Runs.antt =====
-- src/macp_sdk/multi_round.py: the loops of `_ignore_value` and `_string` as relations without fuel, and
-- that both end, with what the code returns.
use macp_sdk_python.Json.{backslash, expect, prepend, quote, string, string_loop, unescape}
use macp_sdk_python.Json.Enough.{begin-shrinks, close-shrinks}
use macp_sdk_python.Json.Fuel.{unescape-shrinks}
use macp_sdk_python.Json.Skips.{length-ws}
use macp_sdk_python.Json.Values.{Turn, begin, close, ended, ignore_loop, ignore_value, opened, ws}
use macp_sdk_python.MultiRound.Actions.{run}
use macp_sdk_python.Prelude.{
  Bool, List, Option, [], ap, arith, eqb, false, if◌then◌else◌, length, ltb, none, not, refl, some,
  suc, true, zero, ℕ, ◌<◌, ◌∷◌, ◌≡◌, ◌≤◌,
}
use macp_sdk_python.Prelude.Options.{◌>>=◌}
use macp_sdk_python.Text.{Text}

-- The loop, from the containers that are open and the text that is left to its result. A derivation has
-- one step for each round.
pub data IgnoreRun : List ℕ → Text → Option Text → Type 0 where
  bad_value :
      (closers : List ℕ) (rest : Text)
      → begin closers (ws rest) ≡ none
      → IgnoreRun closers rest none
  entered :
      (closers inner : List ℕ) (rest after : Text) (r : Option Text)
      → begin closers (ws rest) ≡ some (opened inner after)
      → IgnoreRun inner after r
      → IgnoreRun closers rest r
  bad_end :
      (closers outer : List ℕ) (rest after : Text)
      → begin closers (ws rest) ≡ some (ended outer after)
      → close outer after ≡ none
      → IgnoreRun closers rest none
  finished :
      (closers outer : List ℕ) (rest after last : Text)
      → begin closers (ws rest) ≡ some (ended outer after)
      → close outer after ≡ some ([], last)
      → IgnoreRun closers rest (some last)
  goes_on :
      (closers outer more : List ℕ) (closer : ℕ) (rest after next : Text) (r : Option Text)
      → begin closers (ws rest) ≡ some (ended outer after)
      → close outer after ≡ some (closer ∷ more, next)
      → IgnoreRun (closer ∷ more) next r
      → IgnoreRun closers rest r

-- A round, where `again` is the loop on what is left after it.
module _ (again : List ℕ → Text → Option Text) (closers : List ℕ) (rest : Text)
    (runs : (inner : List ℕ) (next : Text)
      → length next < length rest
      → IgnoreRun inner next (again inner next)) where
  end_round :
      (outer : List ℕ) (after : Text) (m : Option (List ℕ × Text))
      → begin closers (ws rest) ≡ some (ended outer after)
      → length after < length rest
      → close outer after ≡ m
      → IgnoreRun closers rest (
          m >>= λ (left, next). elim left [
            | [] ↦ some next
            | closer ∷ more ↦ again (closer ∷ more) next
          ])
  end_round outer after none e shorter c = bad_end closers outer rest after e c
  end_round outer after (some ([], next)) e shorter c = finished closers outer rest after next e c
  end_round outer after (some (closer ∷ more, next)) e shorter c =
      goes_on closers outer more closer rest after next (again (closer ∷ more) next) e c (
        runs (closer ∷ more) next
          (omega (arith, shorter, close-shrinks outer (closer ∷ more) after next c)))

  ignore_round :
      (m : Option Turn)
      → begin closers (ws rest) ≡ m
      → IgnoreRun closers rest (
          m >>= λ turn. elim turn [
            | opened inner after ↦ again inner after
            | ended outer after ↦ close outer after >>= λ (left, next). elim left [
              | [] ↦ some next
              | closer ∷ more ↦ again (closer ∷ more) next
            ]
          ])
  ignore_round none e = bad_value closers rest e
  ignore_round (some (opened inner after)) e =
      entered closers inner rest after (again inner after) e (
        runs inner after
          (omega (arith, begin-shrinks closers (ws rest) (opened inner after) e, length-ws rest)))
  ignore_round (some (ended outer after)) e =
      end_round outer after (close outer after) e
        (omega (arith, begin-shrinks closers (ws rest) (ended outer after) e, length-ws rest)) refl

ignore_runs :
    (fuel : ℕ) (closers : List ℕ) (rest : Text)
    → length rest < fuel
    → IgnoreRun closers rest (ignore_loop fuel closers rest)
unfolding ignore_loop
ignore_runs zero closers rest h = absurd (omega arith)
ignore_runs (suc fuel) closers rest h =
    ignore_round (ignore_loop fuel) closers rest
      (λ inner next shorter. ignore_runs fuel inner next (omega arith)) (begin closers (ws rest))
      refl

IgnoreRun-shrinks :
    {closers : List ℕ} {rest : Text} {r : Option Text} (last : Text)
    → IgnoreRun closers rest r
    → r ≡ some last
    → length last < length rest
IgnoreRun-shrinks last (bad_value closers rest e) h = cc h
IgnoreRun-shrinks last (entered closers inner rest after r e run) h = omega (
  arith,
  IgnoreRun-shrinks last run h,
  begin-shrinks closers (ws rest) (opened inner after) e,
  length-ws rest,
)
IgnoreRun-shrinks last (bad_end closers outer rest after e c) h = cc h
IgnoreRun-shrinks last (finished closers outer rest after found e c) h =
    let found_is_last : found ≡ last = cc h in
    omega (
      arith,
      ap length found_is_last,
      close-shrinks outer [] after found c,
      begin-shrinks closers (ws rest) (ended outer after) e,
      length-ws rest,
    )
IgnoreRun-shrinks last (goes_on closers outer more closer rest after next r e c run) h = omega (
  arith,
  IgnoreRun-shrinks last run h,
  close-shrinks outer (closer ∷ more) after next c,
  begin-shrinks closers (ws rest) (ended outer after) e,
  length-ws rest,
)

-- The loop of `_string` after the opening quotation mark.
pub data StringRun (decode : Bool) : Text → Option (Text × Text) → Type 0 where
  unterminated : StringRun decode [] none
  closed :
      (c : ℕ) (text : Text) → eqb c quote ≡ true → StringRun decode (c ∷ text) (some ([], text))
  control :
      (c : ℕ) (text : Text)
      → eqb c quote ≡ false
      → ltb c 0x20 ≡ true
      → StringRun decode (c ∷ text) none
  plain :
      (c : ℕ) (text : Text) (r : Option (Text × Text))
      → eqb c quote ≡ false
      → ltb c 0x20 ≡ false
      → eqb c backslash ≡ false
      → StringRun decode text r
      → StringRun decode (c ∷ text) (prepend c r)
  bad_escape :
      (c : ℕ) (text : Text)
      → eqb c quote ≡ false
      → ltb c 0x20 ≡ false
      → eqb c backslash ≡ true
      → unescape decode text ≡ none
      → StringRun decode (c ∷ text) none
  escaped :
      (c code : ℕ) (text rest : Text) (r : Option (Text × Text))
      → eqb c quote ≡ false
      → ltb c 0x20 ≡ false
      → eqb c backslash ≡ true
      → unescape decode text ≡ some (code, rest)
      → StringRun decode rest r
      → StringRun decode (c ∷ text) (prepend code r)

-- A round, where `again` is the loop on what is left after it.
string_round :
    (decode : Bool) (again : Text → Option (Text × Text)) (c : ℕ) (text : Text)
    (quoted low slash : Bool) (m : Option (ℕ × Text))
    → eqb c quote ≡ quoted
    → ltb c 0x20 ≡ low
    → eqb c backslash ≡ slash
    → unescape decode text ≡ m
    → ((rest : Text) → length rest ≤ length text → StringRun decode rest (again rest))
    → StringRun decode (c ∷ text) (
        if quoted
        then some ([], text)
        else if low
        then none
        else if not slash
        then prepend c (again text)
        else elim m [ none ↦ none | some (code, rest) ↦ prepend code (again rest) ])
string_round decode again c text true low slash m q l s u runs = closed c text q
string_round decode again c text false true slash m q l s u runs = control c text q l
string_round decode again c text false false false m q l s u runs =
    plain c text (again text) q l s (runs text (omega arith))
string_round decode again c text false false true none q l s u runs = bad_escape c text q l s u
string_round decode again c text false false true (some (code, rest)) q l s u runs =
    escaped c code text rest (again rest) q l s u
      (runs rest (omega (arith, unescape-shrinks decode code text rest u)))

string_runs :
    (fuel : ℕ) (decode : Bool) (text : Text)
    → length text < fuel
    → StringRun decode text (string_loop fuel decode text)
unfolding string_loop
string_runs zero decode text h = absurd (omega arith)
string_runs (suc fuel) decode [] h = unterminated
string_runs (suc fuel) decode (c ∷ text) h =
    string_round decode (string_loop fuel decode) c text (eqb c quote) (ltb c 0x20)
      (eqb c backslash) (unescape decode text) refl refl refl refl
      (λ rest shorter. string_runs fuel decode rest (omega arith))

-- The scanners end, whatever the text and however deep its containers nest, and the code returns what
-- they end with: there is a finite run of the loop of `_ignore_value` from the text, with no container
-- open, to the result of `ignore_value`, and one of the loop of `_string` from the text to the result of
-- `string` on a quotation mark and that text.
pub ignore_value-terminates :
    (decode : Bool) (rest : Text)
    → IgnoreRun [] rest (ignore_value rest) × StringRun decode rest (string decode (quote ∷ rest))
unfolding ignore_value string expect
ignore_value-terminates decode rest = (
  ignore_runs (suc (length rest)) [] rest (omega arith),
  string_runs (suc (length rest)) decode rest (omega arith),
)

-- What `ignore_value` leaves is shorter than the text.
pub ignore_value-shrinks :
    (rest last : Text) → ignore_value rest ≡ some last → length last < length rest
ignore_value-shrinks rest last h = IgnoreRun-shrinks last (ignore_value-terminates true rest).0 h
