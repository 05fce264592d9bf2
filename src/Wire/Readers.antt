-- ===== src/Wire/Readers.antt =====
-- src/macp_sdk/canonical_json.py and multi_round.py: the two varint readers on any bytes, and what
-- they make of a written number.
use macp_sdk_python.Envelope.{Bytes}
use macp_sdk_python.Prelude.{
  Bool-cases, [], ap, arith, eqb, false, inl, inr, leb, length, ltb, refl, some, subst, suc, zero,
  ℕ, ◌%◌, ◌&&◌, ◌*◌, ◌++◌, ◌+◌, ◌<◌, ◌^◌, ◌∙◌, ◌∷◌, ◌≡◌, ◌≤◌,
}
use macp_sdk_python.Wire.{
  add_group, lenient_loop, read, read_varint, strict_loop, strict_varint, varint,
}
use macp_sdk_python.Wire.Groups.{power_step, strict_loop-groups, varint-groups}

low_weight : (left count : ℕ) → left + count ≡ 8 → 2 ^ (7 * count) ≤ 2 ^ 56
low_weight zero count e =
    omega (arith, ap (λ (c : ℕ). 2 ^ (7 * c)) {x = count} {y = 8} (omega arith))
low_weight (suc left) count e =
    omega (arith, power_step count, low_weight left (suc count) (omega arith))

-- The value grows by less than one weight more.
grown :
    (value byte count : ℕ)
    → value < 2 ^ (7 * count)
    → add_group value byte count < 2 ^ (7 * suc count)
grown value byte count h =
    let low : byte % 128 ≤ 127 = omega arith in
    let times : byte % 128 * 2 ^ (7 * count) ≤ 127 * 2 ^ (7 * count) = grind arith in
    omega (arith, power_step count, times)

last_value :
    (left value byte count : ℕ)
    → suc left + count ≡ 10
    → value < 2 ^ (7 * count)
    → (eqb count 9 && leb 2 byte) ≡ false
    → add_group value byte count < 2 ^ 64
last_value zero value byte count e small ok =
    let nine : count ≡ 9 = omega arith in
    let two : byte < 2 = ground (arith, ok) in
    rw nine (omega (arith, two, subst (λ c. value < 2 ^ (7 * c)) nine small))
last_value (suc left) value byte count e small ok =
    omega
      (arith, grown value byte count small, power_step count, low_weight left count (omega arith))

-- What a strict read says of its loop: how far it went, and how large the number is.
strict_loop-takes :
    (left count value v : ℕ) (buf rest : Bytes)
    → left + count ≡ 10
    → value < 2 ^ (7 * count)
    → strict_loop left count value buf ≡ some (v, rest)
    → (v < 2 ^ 64) × (length rest < length buf) × (length buf ≤ length rest + left)
unfolding strict_loop
strict_loop-takes zero count value v buf rest e small h = ground (arith, h)
strict_loop-takes (suc left) count value v [] rest e small h = ground (arith, h)
strict_loop-takes (suc left) count value v (byte ∷ buf) rest e small h =
    elim (Bool-cases (ltb byte 0x80)) [
      | inl y ↦ ground (arith, h, y, last_value left value byte count e small)
      | inr n ↦ ground (
        arith,
        h,
        n,
        strict_loop-takes left (suc count) (add_group value byte count) v buf rest (omega arith)
            (grown value byte count small),
      )
    ]

strict_loop-lenient :
    (left count value v : ℕ) (buf rest : Bytes)
    → left + count ≡ 10
    → strict_loop left count value buf ≡ some (v, rest)
    → lenient_loop left count value buf ≡ read v rest
unfolding strict_loop lenient_loop
strict_loop-lenient zero count value v buf rest e h = ground (arith, h)
strict_loop-lenient (suc left) count value v [] rest e h = ground (arith, h)
strict_loop-lenient (suc zero) count value v (byte ∷ buf) rest e h = ground (arith, h)
strict_loop-lenient (suc (suc left)) count value v (byte ∷ buf) rest e h =
    ground
      (arith, h, strict_loop-lenient (suc left) (suc count) (add_group value byte count) v buf rest)

-- Both readers read a number below 2 ** 64 that the writer has written, whatever is behind it.
pub strict_varint-varint :
    (number : ℕ) (rest : Bytes)
    → number < 2 ^ 64
    → (strict_varint (varint number ++ rest) ≡ some (number, rest))
      × (read_varint (varint number ++ rest) ≡ read number rest)
unfolding strict_varint read_varint
strict_varint-varint number rest h =
    let strict : strict_loop 10 0 0 (varint number ++ rest) ≡ some (number, rest) =
      rw (varint-groups number h) (
        strict_loop-groups 9 number 0 0 rest (omega arith) (omega arith)
        ∙ ap (λ n. some (n, rest)) (omega arith)) in
    (strict, strict_loop-lenient 10 0 0 number (varint number ++ rest) rest refl strict)

-- Where the strict reader of multi_round.py reads a number, it is below 2 ** 64 and took one to ten
-- bytes, and the reader of canonical_json.py reads the same number.
pub strict_varint-takes :
    (buf rest : Bytes) (v : ℕ)
    → strict_varint buf ≡ some (v, rest)
    → (v < 2 ^ 64)
      × (length rest < length buf)
      × (length buf ≤ length rest + 10)
      × (read_varint buf ≡ read v rest)
unfolding strict_varint read_varint
strict_varint-takes buf rest v h =
    let takes = strict_loop-takes 10 0 0 v buf rest refl (omega arith) h in
    (takes.0, takes.1, takes.2, strict_loop-lenient 10 0 0 v buf rest refl h)
