-- ===== src/Contribute/Objects.antt =====
-- src/macp_sdk/multi_round.py: the loop of `_json_value` over the members of the object as a relation
-- without fuel, and that it ends, with what the code returns.
use macp_sdk_python.Contribute.Decision.{
  json_object, member_value, next_name, object_loop, same_text,
}
use macp_sdk_python.Json.{expect, string}
use macp_sdk_python.Json.Fuel.{string-shrinks}
use macp_sdk_python.Json.Runs.{ignore_value-shrinks}
use macp_sdk_python.Json.Skips.{expect-shrinks, length-tail, length-ws}
use macp_sdk_python.Json.Values.{ignore_value, starts, tail, ws}
use macp_sdk_python.Prelude.{
  Bool, Bool-cases, Option, arith, false, inl, inr, length, none, refl, some, suc, true, zero, ℕ,
  ◌<◌, ◌∷◌, ◌≡◌, ◌≤◌,
}
use macp_sdk_python.Prelude.Options.{>>=-some, ◌>>=◌}
use macp_sdk_python.Text.{Text, codes}

-- The loop, from the value found so far and the text that is left to its result.
pub data ObjectRun : Option Text → Text → Option (Option Text × Text) → Type 0 where
  closed :
      (found : Option Text) (rest : Text)
      → starts b'}' rest ≡ true
      → ObjectRun found rest (some (found, tail rest))
  bad_name :
      (found : Option Text) (rest : Text)
      → starts b'}' rest ≡ false
      → string true rest ≡ none
      → ObjectRun found rest none
  bad_colon :
      (found : Option Text) (rest name after_name : Text)
      → starts b'}' rest ≡ false
      → string true rest ≡ some (name, after_name)
      → expect b':' (ws after_name) ≡ none
      → ObjectRun found rest none
  bad_member :
      (found : Option Text) (rest name after_name after_colon : Text)
      → starts b'}' rest ≡ false
      → string true rest ≡ some (name, after_name)
      → expect b':' (ws after_name) ≡ some after_colon
      → member_value name found (ws after_colon) ≡ none
      → ObjectRun found rest none
  bad_comma :
      (found value : Option Text) (rest name after_name after_colon after_member : Text)
      → starts b'}' rest ≡ false
      → string true rest ≡ some (name, after_name)
      → expect b':' (ws after_name) ≡ some after_colon
      → member_value name found (ws after_colon) ≡ some (value, after_member)
      → next_name (ws after_member) ≡ none
      → ObjectRun found rest none
  goes_on :
      (found value : Option Text) (rest name after_name after_colon after_member next : Text)
      (r : Option (Option Text × Text))
      → starts b'}' rest ≡ false
      → string true rest ≡ some (name, after_name)
      → expect b':' (ws after_name) ≡ some after_colon
      → member_value name found (ws after_colon) ≡ some (value, after_member)
      → next_name (ws after_member) ≡ some next
      → ObjectRun value next r
      → ObjectRun found rest r

next_name-shrinks : (rest next : Text) → next_name rest ≡ some next → length next ≤ length rest
unfolding next_name
next_name-shrinks rest next h = ground (arith, h, length-ws (tail rest), length-tail rest)

text_member-shrinks :
    (found value : Option Text) (rest after : Text)
    → ◌≡◌ {A = Option (Option Text × Text)}
        (elim found [
          | some _ ↦ none
          | none ↦ string true rest >>= λ (text, after). some (some text, after)
        ])
        (some (value, after))
    → length after ≤ length rest
text_member-shrinks (some v) value rest after h = cc h
text_member-shrinks none value rest after h =
    let ((text, left), e, k) =
      >>=-some {B = Option Text × Text} (string true rest) (λ (t, l). some (some t, l))
        (value, after) h in
    ground (arith, k, string-shrinks true rest text left e)

member_value-shrinks :
    (name : Text) (found value : Option Text) (rest after : Text)
    → member_value name found rest ≡ some (value, after)
    → length after ≤ length rest
unfolding member_value
member_value-shrinks name found value rest after h =
    elim (Bool-cases (same_text name (codes "value"))) [
      | inl y ↦ text_member-shrinks found value rest after (ground (arith, y, h))
      | inr n ↦
          let (left, e, k) =
            >>=-some {B = Option Text × Text} (ignore_value rest) (λ l. some (found, l))
              (value, after) (ground (arith, n, h)) in
          ground (arith, k, ignore_value-shrinks rest left e)
    ]

-- A round, from its last step to its first, where `again` is the loop on what is left after it.
module _ (again : Option Text → Text → Option (Option Text × Text)) (found : Option Text)
    (rest : Text) (more : starts b'}' rest ≡ false)
    (runs : (value : Option Text) (next : Text)
      → length next < length rest
      → ObjectRun value next (again value next)) where
  comma_round :
      (value : Option Text) (name after_name after_colon after_member : Text) (m : Option Text)
      → string true rest ≡ some (name, after_name)
      → expect b':' (ws after_name) ≡ some after_colon
      → member_value name found (ws after_colon) ≡ some (value, after_member)
      → next_name (ws after_member) ≡ m
      → ObjectRun found rest (m >>= again value)
  comma_round value name after_name after_colon after_member none n c v k =
      bad_comma found value rest name after_name after_colon after_member more n c v k
  comma_round value name after_name after_colon after_member (some next) n c v k =
      goes_on found value rest name after_name after_colon after_member next (again value next) more
        n c v k
        (runs value next (
          omega (
            arith,
            string-shrinks true rest name after_name n,
            length-ws after_name,
            expect-shrinks b':' (ws after_name) after_colon c,
            length-ws after_colon,
            member_value-shrinks name found value (ws after_colon) after_member v,
            length-ws after_member,
            next_name-shrinks (ws after_member) next k,
          )))

  member_round :
      (name after_name after_colon : Text) (m : Option (Option Text × Text))
      → string true rest ≡ some (name, after_name)
      → expect b':' (ws after_name) ≡ some after_colon
      → member_value name found (ws after_colon) ≡ m
      → ObjectRun found rest (m >>= λ (value, left). next_name (ws left) >>= again value)
  member_round name after_name after_colon none n c v =
      bad_member found rest name after_name after_colon more n c v
  member_round name after_name after_colon (some (value, left)) n c v =
      comma_round value name after_name after_colon left (next_name (ws left)) n c v refl

  colon_round :
      (name after_name : Text) (m : Option Text)
      → string true rest ≡ some (name, after_name)
      → expect b':' (ws after_name) ≡ m
      → ObjectRun found rest (
          m >>= λ after_colon. member_value name found (ws after_colon) >>= λ (value, left).
          next_name (ws left) >>= again value)
  colon_round name after_name none n c = bad_colon found rest name after_name more n c
  colon_round name after_name (some after_colon) n c =
      member_round name after_name after_colon (member_value name found (ws after_colon)) n c refl

  name_round :
      (m : Option (Text × Text))
      → string true rest ≡ m
      → ObjectRun found rest (
          m >>= λ (name, after_name). expect b':' (ws after_name) >>= λ after_colon.
          member_value name found (ws after_colon) >>= λ (value, left).
          next_name (ws left) >>= again value)
  name_round none n = bad_name found rest more n
  name_round (some (name, after_name)) n =
      colon_round name after_name (expect b':' (ws after_name)) n refl

object_round :
    (again : Option Text → Text → Option (Option Text × Text)) (found : Option Text) (rest : Text)
    (b : Bool)
    → starts b'}' rest ≡ b
    → ((value : Option Text) (next : Text)
        → length next < length rest
        → ObjectRun value next (again value next))
    → ObjectRun found rest (elim b [
      | true ↦ some (found, tail rest)
      | false ↦ string true rest >>= λ (name, after_name).
          expect b':' (ws after_name) >>= λ after_colon.
          member_value name found (ws after_colon) >>= λ (value, left).
          next_name (ws left) >>= again value
    ])
object_round again found rest true y runs = closed found rest y
object_round again found rest false n runs =
    name_round again found rest n runs (string true rest) refl

object_runs :
    (fuel : ℕ) (found : Option Text) (rest : Text)
    → length rest < fuel
    → ObjectRun found rest (object_loop fuel found rest)
unfolding object_loop
object_runs zero found rest h = absurd (omega arith)
object_runs (suc fuel) found rest h =
    object_round (object_loop fuel) found rest (starts b'}' rest) refl
      (λ value next shorter. object_runs fuel value next (omega arith))

-- The loop over the members ends, whatever the text behind the opening brace, and `json_object` returns
-- what it ends with.
pub json_object-terminates : (inner : Text) → ObjectRun none (ws inner) (json_object (b'{' ∷ inner))
unfolding json_object expect
json_object-terminates inner =
    object_runs (suc (length inner)) none (ws inner) (omega (arith, length-ws inner))
