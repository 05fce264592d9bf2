-- ===== src/Wire.antt =====
-- The varints of src/macp_sdk/canonical_json.py (`_varint`, `_read_varint`) and of multi_round.py
-- (`_varint`, and the loop of `_canonical_proto`, which is the writer again). A buffer at a position is
-- the list of the bytes that are left; masks and shifts by numerals are written with `%`, `/` and `*`.
pub mod Groups
pub mod Readers
use mathlib.Core.Logic.{dite}
use mathlib.Core.WellFounded.{Acc}
use native.Mathlib.Decide.{dec_lt}
use macp_sdk_python.Envelope.{Bytes}
use macp_sdk_python.Prelude.{
  Option, [], arith, eqb, if◌then◌else◌, leb, ltb, none, some, suc, zero, ℕ, ◌%◌, ◌&&◌, ◌*◌, ◌+◌,
  ◌/◌, ◌<◌, ◌^◌, ◌∷◌,
}
use macp_sdk_python.Prelude.Order.{lt_wf}

unfoldable pub varint_loop : (number : ℕ) → Acc ◌<◌ number → Bytes
varint_loop number (Acc.intro _ smaller) =
    dite (dec_lt 0x7f number)
      (λ more.
        (number % 128 + 128) ∷ varint_loop (number / 128) (smaller (number / 128) (omega arith)))
      (λ _. number ∷ [])

unfoldable pub varint : ℕ → Bytes
unfolding varint_loop lt_wf dec_lt
varint number = varint_loop number (lt_wf.apply number)

-- `value | (byte & 0x7F) << (7 * count)`, where `value` has no bit there yet.
abbrev pub add_group : ℕ → ℕ → ℕ → ℕ
add_group value byte count = value + byte % 128 * 2 ^ (7 * count)

-- multi_round.py `_varint`, with `left` rounds to go; `none` is `_Malformed`.
unfoldable pub strict_loop : ℕ → ℕ → ℕ → Bytes → Option (ℕ × Bytes)
strict_loop zero count value buf = none
strict_loop (suc left) count value [] = none
strict_loop (suc left) count value (byte ∷ buf) =
    let more = strict_loop left (suc count) (add_group value byte count) buf in
    if ltb byte 0x80
    then (if eqb count 9 && leb 2 byte then none else some (add_group value byte count, buf))
    else more

unfoldable pub strict_varint : Bytes → Option (ℕ × Bytes)
unfolding strict_loop
strict_varint buf = strict_loop 10 0 0 buf

-- canonical_json.py `_read_varint`, which leaves a truncated number to the parser.
pub data Read : Type 0 where
  read : ℕ → Bytes → Read
  decode_error : Read

unfoldable pub lenient_loop : ℕ → ℕ → ℕ → Bytes → Read
lenient_loop zero index result buf = decode_error
lenient_loop (suc left) index result [] = read result []
lenient_loop (suc left) index result (byte ∷ buf) =
    let more = lenient_loop left (suc index) (add_group result byte index) buf in
    if eqb index 9 && ltb 1 byte
    then decode_error
    else if ltb byte 0x80
    then read (add_group result byte index) buf
    else more

unfoldable pub read_varint : Bytes → Read
unfolding lenient_loop
read_varint buf = lenient_loop 10 0 0 buf
