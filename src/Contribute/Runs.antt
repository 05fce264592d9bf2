-- ===== src/Contribute/Runs.antt =====
-- src/macp_sdk/multi_round.py: the two `while` loops of the protobuf reader as relations without fuel, and
-- that both loops end, with what the code returns.
use macp_sdk_python.Contribute.{field, fields, key, proto_value, skip, skip_group}
use macp_sdk_python.Contribute.Fuel.{Shrinks, field-shrinks, key-shrinks, skip-Shrinks}
use macp_sdk_python.Envelope.{Bytes}
use macp_sdk_python.Prelude.{
  Bool, Option, Option-cases, [], arith, eqb, false, if◌then◌else◌, inl, inr, length, none, refl,
  some, suc, true, zero, ℕ, ◌∷◌, ◌≡◌, ◌≤◌,
}
use macp_sdk_python.Prelude.Options.{◌>>=◌}
use macp_sdk_python.Text.{Text}
use macp_sdk_python.Wire.{strict_loop, strict_varint}

-- The loop of `_skip` over the fields of a group that `tag` opened, from a buffer to its result. A
-- derivation has one step for each round.
pub data GroupRun (skip_field : ℕ → ℕ → Bytes → Option Bytes) (tag : ℕ)
    : Bytes → Option Bytes → Type 0 where
  bad_key : (buf : Bytes) → key buf ≡ none → GroupRun skip_field tag buf none
  closed :
      (buf after : Bytes) (inner_tag inner_type : ℕ)
      → key buf ≡ some (inner_tag, inner_type, after)
      → eqb inner_type 4 ≡ true
      → eqb inner_tag tag ≡ true
      → GroupRun skip_field tag buf (some after)
  mismatched :
      (buf after : Bytes) (inner_tag inner_type : ℕ)
      → key buf ≡ some (inner_tag, inner_type, after)
      → eqb inner_type 4 ≡ true
      → eqb inner_tag tag ≡ false
      → GroupRun skip_field tag buf none
  bad_field :
      (buf after : Bytes) (inner_tag inner_type : ℕ)
      → key buf ≡ some (inner_tag, inner_type, after)
      → eqb inner_type 4 ≡ false
      → skip_field inner_tag inner_type after ≡ none
      → GroupRun skip_field tag buf none
  skipped :
      (buf after rest : Bytes) (inner_tag inner_type : ℕ) (r : Option Bytes)
      → key buf ≡ some (inner_tag, inner_type, after)
      → eqb inner_type 4 ≡ false
      → skip_field inner_tag inner_type after ≡ some rest
      → GroupRun skip_field tag rest r
      → GroupRun skip_field tag buf r

-- A round, where `again` is the loop on what a field leaves.
group_round :
    (skip_field : ℕ → ℕ → Bytes → Option Bytes) (tag : ℕ) (buf after : Bytes) (t w : ℕ)
    (closing matching : Bool) (m : Option Bytes) (again : Bytes → Option Bytes)
    → key buf ≡ some (t, w, after)
    → eqb w 4 ≡ closing
    → eqb t tag ≡ matching
    → skip_field t w after ≡ m
    → ((rest : Bytes) → m ≡ some rest → GroupRun skip_field tag rest (again rest))
    → GroupRun skip_field tag buf
        (elim closing [ true ↦ if matching then some after else none | false ↦ m >>= again ])
group_round skip_field tag buf after t w true true m again k y z s runs = closed buf after t w k y z
group_round skip_field tag buf after t w true false m again k y z s runs =
    mismatched buf after t w k y z
group_round skip_field tag buf after t w false matching none again k y z s runs =
    bad_field buf after t w k y s
group_round skip_field tag buf after t w false matching (some rest) again k y z s runs =
    skipped buf after rest t w (again rest) k y s (runs rest refl)

group_runs :
    (skip_field : ℕ → ℕ → Bytes → Option Bytes) (fuel tag : ℕ) (buf : Bytes)
    → ((t w : ℕ) → Shrinks (skip_field t w))
    → length buf ≤ fuel
    → GroupRun skip_field tag buf (skip_group skip_field fuel tag buf)
unfolding skip_group
group_runs skip_field zero tag [] shrinks h =
    bad_key [] (unfold key strict_varint strict_loop in refl)
group_runs skip_field zero tag (b ∷ buf) shrinks h = absurd (omega arith)
group_runs skip_field (suc fuel) tag buf shrinks h = elim (Option-cases (key buf)) [
  | inl k ↦ rw k (bad_key buf k)
  | inr ((t, w, after), k) ↦ rw k (
      group_round skip_field tag buf after t w (eqb w 4) (eqb t tag) (skip_field t w after)
        (skip_group skip_field fuel tag) k refl refl refl
        (λ rest z.
          group_runs skip_field fuel tag rest shrinks
            (omega (arith, key-shrinks buf after t w k, shrinks t w after rest z))))
]

-- The loop of `_proto_value`, from the value so far and a buffer to its result.
pub data FieldsRun (decode : Bytes → Option Text) (encode : Text → Bytes)
    : Text → Bytes → Option Text → Type 0 where
  finished : (value : Text) → FieldsRun decode encode value [] (some value)
  malformed :
      (value : Text) (b : ℕ) (buf : Bytes)
      → field decode encode value (b ∷ buf) ≡ none
      → FieldsRun decode encode value (b ∷ buf) none
  goes_on :
      (value next : Text) (b : ℕ) (buf rest : Bytes) (r : Option Text)
      → field decode encode value (b ∷ buf) ≡ some (next, rest)
      → FieldsRun decode encode next rest r
      → FieldsRun decode encode value (b ∷ buf) r

fields_run :
    (decode : Bytes → Option Text) (encode : Text → Bytes) (fuel : ℕ) (value : Text) (buf : Bytes)
    → length buf ≤ fuel
    → FieldsRun decode encode value buf (fields decode encode fuel value buf)
unfolding fields
fields_run decode encode fuel value [] h = unfold fields in finished value
fields_run decode encode zero value (b ∷ buf) h = absurd (omega arith)
fields_run decode encode (suc fuel) value (b ∷ buf) h =
    elim (Option-cases (field decode encode value (b ∷ buf))) [
      | inl n ↦ rw n (malformed value b buf n)
      | inr ((next, rest), e) ↦ rw e (
          goes_on value next b buf rest (fields decode encode fuel next rest) e (
            fields_run decode encode fuel next rest
              (omega (arith, field-shrinks decode encode value next (b ∷ buf) rest e))))
    ]

-- Both loops of the reader end, whatever the bytes, and `proto_value` and `skip` return what they end
-- with: there is a finite run of the loop over the message's fields from the empty value to the result of
-- `proto_value`, and at each depth one of the loop over a group's fields to the result of `skip`.
pub proto_value-terminates :
    (decode : Bytes → Option Text) (encode : Text → Bytes) (buf : Bytes) (depth tag : ℕ)
    → FieldsRun decode encode [] buf (proto_value decode encode buf)
      × GroupRun (skip depth) tag buf (skip (suc depth) tag 3 buf)
unfolding proto_value skip
proto_value-terminates decode encode buf depth tag = (
  fields_run decode encode (length buf) [] buf (omega arith),
  group_runs (skip depth) (length buf) tag buf (skip-Shrinks depth) (omega arith),
)
