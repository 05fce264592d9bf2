-- ===== src/Tests/Wires.antt =====
-- Varints: 300 is two bytes, and the tenth byte can add one bit only.
use macp_sdk_python.Envelope.{Bytes}
use macp_sdk_python.Prelude.{
  [], arith, length, none, refl, some, suc, zero, ℕ, ◌++◌, ◌+◌, ◌-◌, ◌<◌, ◌^◌, ◌∷◌, ◌≡◌, ◌≤◌,
}
use macp_sdk_python.Wire.{
  decode_error, lenient_loop, read, read_varint, strict_loop, strict_varint, varint, varint_loop,
}
use macp_sdk_python.Wire.Readers.{strict_varint-takes, strict_varint-varint}

abbrev three_hundred : Bytes
three_hundred = 0xac ∷ 2 ∷ 7 ∷ []

abbrev full_bytes : ℕ → Bytes → Bytes
full_bytes zero rest = rest
full_bytes (suc n) rest = 0xff ∷ full_bytes n rest

runs : Unit {0}
unfolding varint varint_loop strict_varint strict_loop read_varint lenient_loop
runs = tt

largest_number : strict_varint (full_bytes 9 (1 ∷ [])) ≡ some (2 ^ 64 - 1, [])
unfolding runs
largest_number = refl

overflow_is_malformed : strict_varint (full_bytes 9 (2 ∷ [])) ≡ none
unfolding runs
overflow_is_malformed = refl

overflow_is_an_error : read_varint (full_bytes 9 (2 ∷ [])) ≡ decode_error
unfolding runs
overflow_is_an_error = refl

-- A truncated number is malformed for the one reader, and left to the parser by the other.
truncated_readings : (strict_varint (0x80 ∷ []) ≡ none) × (read_varint (0x81 ∷ []) ≡ read 1 [])
unfolding runs
truncated_readings = (refl, refl)

strict_varint-varint_example :
    (strict_varint (varint 300 ++ 7 ∷ []) ≡ some (300, 7 ∷ []))
    × (read_varint (varint 300 ++ 7 ∷ []) ≡ read 300 (7 ∷ []))
strict_varint-varint_example = strict_varint-varint 300 (7 ∷ []) (omega arith)

strict_varint-takes_example :
    (300 < 2 ^ 64)
    × (length {A = ℕ} (7 ∷ []) < length three_hundred)
    × (length three_hundred ≤ length {A = ℕ} (7 ∷ []) + 10)
    × (read_varint three_hundred ≡ read 300 (7 ∷ []))
unfolding runs
strict_varint-takes_example = strict_varint-takes three_hundred (7 ∷ []) 300 refl
