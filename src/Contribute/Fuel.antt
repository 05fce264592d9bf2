-- ===== src/Contribute/Fuel.antt =====
-- src/macp_sdk/multi_round.py: every step of the protobuf reader leaves fewer bytes than it was given, or
-- at least no more.
use macp_sdk_python.Contribute.{
  advance, drop, field, key, skip, skip_delimited, skip_group, skip_varint, text_bytes, text_field,
}
use macp_sdk_python.Envelope.{Bytes}
use macp_sdk_python.Prelude.{
  Bool, Option, [], arith, eqb, false, if◌then◌else◌, length, none, some, suc, true, zero, ℕ, ◌<◌,
  ◌∷◌, ◌≡◌, ◌≤◌,
}
use macp_sdk_python.Prelude.Options.{>>=-some, ◌>>=◌}
use macp_sdk_python.Text.{Text}
use macp_sdk_python.Wire.{strict_varint}
use macp_sdk_python.Wire.Readers.{strict_varint-takes}

length-drop : (n : ℕ) (buf : Bytes) → length (drop n buf) ≤ length buf
length-drop zero buf = omega arith
length-drop (suc n) [] = omega arith
length-drop (suc n) (b ∷ buf) = omega (arith, length-drop n buf)

strict_varint-shrinks :
    (buf rest : Bytes) (v : ℕ) → strict_varint buf ≡ some (v, rest) → length rest < length buf
strict_varint-shrinks buf rest v h = (strict_varint-takes buf rest v h).1

pub key-shrinks :
    (buf rest : Bytes) (tag wire_type : ℕ)
    → key buf ≡ some (tag, wire_type, rest)
    → length rest < length buf
unfolding key
key-shrinks buf rest tag wire_type h =
    let ((v, after), e, last) = >>=-some (strict_varint buf) _ (tag, wire_type, rest) h in
    ground (arith, last, strict_varint-shrinks buf after v e)

advance-shrinks : (n : ℕ) (buf rest : Bytes) → advance n buf ≡ some rest → length rest ≤ length buf
unfolding advance
advance-shrinks n buf rest h = ground (arith, h, length-drop n buf)

-- A step that never leaves more than it was given.
abbrev pub Shrinks : (Bytes → Option Bytes) → Type 0
Shrinks f = (buf rest : Bytes) → f buf ≡ some rest → length rest ≤ length buf

skip_varint-Shrinks : Shrinks skip_varint
unfolding skip_varint
skip_varint-Shrinks buf rest h =
    let ((v, after), e, last) = >>=-some (strict_varint buf) _ rest h in
    ground (arith, last, strict_varint-shrinks buf after v e)

skip_delimited-Shrinks : Shrinks skip_delimited
unfolding skip_delimited
skip_delimited-Shrinks buf rest h =
    let ((v, after), e, last) = >>=-some (strict_varint buf) _ rest h in
    omega (arith, strict_varint-shrinks buf after v e, advance-shrinks v after rest last)

-- One field of a group, and what comes again after it.
group_field-Shrinks :
    (closing same : Bool) (after rest : Bytes) (m : Option Bytes) (again : Bytes → Option Bytes)
    → ((x : Bytes) → m ≡ some x → length x ≤ length after)
    → Shrinks again
    → elim closing [ true ↦ if same then some after else none | false ↦ m >>= again ] ≡ some rest
    → length rest ≤ length after
group_field-Shrinks true same after rest m again step s h = ground (arith, h)
group_field-Shrinks false same after rest m again step s h =
    let (x, e, last) = >>=-some m again rest h in omega (arith, step x e, s x rest last)

skip_group-Shrinks :
    (skip_field : ℕ → ℕ → Bytes → Option Bytes) (fuel tag : ℕ)
    → ((t w : ℕ) → Shrinks (skip_field t w))
    → Shrinks (skip_group skip_field fuel tag)
unfolding skip_group
skip_group-Shrinks skip_field zero tag shrinks buf rest h = cc h
skip_group-Shrinks skip_field (suc fuel) tag shrinks buf rest h =
    let ((t, w, after), e, last) = >>=-some (key buf) _ rest h in
    omega (
      arith,
      key-shrinks buf after t w e,
      group_field-Shrinks (eqb w 4) (eqb t tag) after rest (skip_field t w after)
          (skip_group skip_field fuel tag) (shrinks t w after)
          (skip_group-Shrinks skip_field fuel tag shrinks) last,
    )

pub skip-Shrinks : (depth tag wire_type : ℕ) → Shrinks (skip depth tag wire_type)
unfolding skip
skip-Shrinks zero tag wire_type buf rest h = cc h
skip-Shrinks (suc depth) tag wire_type buf rest h = ground (
  arith,
  h,
  skip_group-Shrinks (skip depth) (length buf) tag (skip-Shrinks depth) buf rest,
  skip_varint-Shrinks buf rest,
  skip_delimited-Shrinks buf rest,
  advance-shrinks 8 buf rest,
  advance-shrinks 4 buf rest,
)

module _ (decode : Bytes → Option Text) (encode : Text → Bytes) where
  text_bytes-shrinks :
      (n : ℕ) (body rest : Bytes) (last : Text)
      → text_bytes decode encode n body ≡ some (last, rest)
      → length rest ≤ length body
  unfolding text_bytes
  text_bytes-shrinks n body rest last h = ground (arith, h, length-drop n body)

  text_field-shrinks :
      (buf rest : Bytes) (last : Text)
      → text_field decode encode buf ≡ some (last, rest)
      → length rest ≤ length buf
  unfolding text_field
  text_field-shrinks buf rest last h =
      let ((n, body), e, found) = >>=-some (strict_varint buf) _ (last, rest) h in
      omega (arith, strict_varint-shrinks buf body n e, text_bytes-shrinks n body rest last found)

  field_step-shrinks :
      (value next : Text) (after rest : Bytes) (m : Option Bytes) (first text : Bool)
      → ((x : Bytes) → m ≡ some x → length x ≤ length after)
      → ◌≡◌ {A = Option (Text × Bytes)}
          (elim first [
            | false ↦ m >>= λ x. some (value, x)
            | true ↦ if text then text_field decode encode after else none
          ])
          (some (next, rest))
      → length rest ≤ length after
  field_step-shrinks value next after rest m true text step h =
      ground (arith, h, text_field-shrinks after rest next)
  field_step-shrinks value next after rest m false text step h =
      let (x, e, found) = >>=-some m _ (next, rest) h in ground (arith, step x e, found)

  pub field-shrinks :
      (value next : Text) (buf rest : Bytes)
      → field decode encode value buf ≡ some (next, rest)
      → length rest < length buf
  unfolding field text_field
  field-shrinks value next buf rest h =
      let ((tag, w, after), e, last) = >>=-some (key buf) _ (next, rest) h in
      omega (
        arith,
        key-shrinks buf after tag w e,
        field_step-shrinks value next after rest (skip 100 tag w after) (eqb tag 1) (eqb w 2)
            (skip-Shrinks 100 tag w after) last,
      )
