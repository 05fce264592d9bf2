-- ===== src/Contribute.antt =====
-- src/macp_sdk/multi_round.py: how the bytes of a Contribute are read. A buffer at a position is the list of
-- the bytes that are left; `none` is `_Malformed`.
pub mod Fuel
pub mod Runs
pub mod Objects
pub mod RoundTrip
pub mod Decision
pub mod Legacy
use macp_sdk_python.Envelope.{Bytes}
use macp_sdk_python.Prelude.{
  Option, [], eqb, false, if◌then◌else◌, is_empty, length, ltb, none, some, suc, true, zero, ℕ, ◌%◌,
  ◌++◌, ◌/◌, ◌||◌, ◌∷◌,
}
use macp_sdk_python.Prelude.Options.{◌>>=◌}
use macp_sdk_python.Text.{Text}
use macp_sdk_python.Wire.{strict_varint, varint}

abbrev pub drop : ℕ → Bytes → Bytes
drop zero buf = buf
drop (suc n) [] = []
drop (suc n) (b ∷ buf) = drop n buf

abbrev pub take : ℕ → Bytes → Bytes
take zero buf = []
take (suc n) [] = []
take (suc n) (b ∷ buf) = b ∷ take n buf

-- `_key`: the tag and the wire type of a field.
unfoldable pub key : Bytes → Option (ℕ × ℕ × Bytes)
key buf = do
  (number, rest) ← strict_varint buf
  if ltb 0xffff_ffff number || ltb 5 (number % 8) || ltb (number / 8) 1
      then none
      else some (number / 8, number % 8, rest)

-- The last lines of `_skip`.
unfoldable pub advance : ℕ → Bytes → Option Bytes
advance n buf = if ltb (length buf) n then none else some (drop n buf)

-- The loop over a group's fields. Each round takes a byte at least.
unfoldable pub skip_group : (ℕ → ℕ → Bytes → Option Bytes) → ℕ → ℕ → Bytes → Option Bytes
skip_group skip_field zero tag buf = none
skip_group skip_field (suc fuel) tag buf = do
  (inner_tag, inner_type, rest) ← key buf
  elim (eqb inner_type 4) [
    | true ↦ if eqb inner_tag tag then some rest else none
    | false ↦ skip_field inner_tag inner_type rest >>= skip_group skip_field fuel tag
  ]

-- A varint, and a length-delimited field, skipped.
unfoldable pub skip_varint : Bytes → Option Bytes
skip_varint buf = do (n, rest) ← strict_varint buf; some rest

unfoldable pub skip_delimited : Bytes → Option Bytes
unfolding advance
skip_delimited buf = do (n, rest) ← strict_varint buf; advance n rest

-- `_skip`; wire type 4 and above is an unexpected end group.
unfoldable pub skip : ℕ → ℕ → ℕ → Bytes → Option Bytes
unfolding skip_group skip_delimited skip_varint advance
skip zero tag wire_type buf = none
skip (suc depth) tag wire_type buf = elim (eqb wire_type 3) [
  | true ↦ skip_group (skip depth) (length buf) tag buf
  | false ↦
      if eqb wire_type 0
      then skip_varint buf
      else if eqb wire_type 2
      then skip_delimited buf
      else if eqb wire_type 1
      then advance 8 buf
      else if eqb wire_type 5
      then advance 4 buf
      else none
]

-- `bytes.decode("utf-8")`, with `none` for `UnicodeDecodeError`, and `str.encode("utf-8")`.
module _ (decode : Bytes → Option Text) (encode : Text → Bytes) where
  -- The text of a field 1 of length `n`.
  unfoldable pub text_bytes : ℕ → Bytes → Option (Text × Bytes)
  text_bytes n body = elim (ltb (length body) n) [
    | true ↦ none
    | false ↦ decode (take n body) >>= λ last. some (last, drop n body)
  ]

  unfoldable pub text_field : Bytes → Option (Text × Bytes)
  unfolding text_bytes
  text_field buf = do (n, body) ← strict_varint buf; text_bytes n body

  -- One field of the message: the value after it, and the bytes that are left.
  unfoldable pub field : Text → Bytes → Option (Text × Bytes)
  unfolding key skip text_field
  field value buf = do
    (tag, wire_type, rest) ← key buf
    elim (eqb tag 1) [
      | false ↦ skip 100 tag wire_type rest >>= λ after. some (value, after)
      | true ↦ if eqb wire_type 2 then text_field rest else none
    ]

  -- The loop of `_proto_value`. Each round takes a byte at least.
  unfoldable pub fields : ℕ → Text → Bytes → Option Text
  fields fuel value [] = some value
  fields zero value (b ∷ buf) = none
  fields (suc fuel) value (b ∷ buf) = do (next, rest) ← field value (b ∷ buf); fields fuel next rest

  unfoldable pub proto_value : Bytes → Option Text
  unfolding fields
  proto_value buf = fields (length buf) [] buf

  unfoldable pub canonical_proto : Text → Bytes
  canonical_proto value =
      let raw = encode value in if is_empty raw then [] else 0x0a ∷ varint (length raw) ++ raw
