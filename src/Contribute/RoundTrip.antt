-- ===== src/Contribute/RoundTrip.antt =====
-- src/macp_sdk/multi_round.py: `_proto_value` reads what `_canonical_proto` writes.
use macp_sdk_python.Contribute.{
  canonical_proto, drop, field, fields, key, proto_value, take, text_bytes, text_field,
}
use macp_sdk_python.Envelope.{Bytes}
use macp_sdk_python.Prelude.{
  Option, [], ap, arith, false, if◌then◌else◌, is_empty, length, ltb, refl, some, suc, ℕ, ◌++◌, ◌<◌,
  ◌^◌, ◌∙◌, ◌∷◌, ◌≡◌,
}
use macp_sdk_python.Text.{Text}
use macp_sdk_python.Wire.{strict_loop, strict_varint, varint}
use macp_sdk_python.Wire.Readers.{strict_varint-varint}

strict_varint-byte : (b : ℕ) (rest : Bytes) → b < 128 → strict_varint (b ∷ rest) ≡ some (b, rest)
unfolding strict_varint strict_loop
strict_varint-byte b rest h = ground arith

key-value : (rest : Bytes) → key (0x0a ∷ rest) ≡ some (1, 2, rest)
unfolding key
key-value rest = rw (strict_varint-byte 0x0a rest (omega arith), key) refl

take_all : (xs : Bytes) → take (length xs) xs ≡ xs
take_all [] = refl
take_all (x ∷ xs) = ap (λ r. x ∷ r) (take_all xs)

drop_all : (xs : Bytes) → drop (length xs) xs ≡ []
drop_all [] = refl
drop_all (x ∷ xs) = drop_all xs

module _ (decode : Bytes → Option Text) (encode : Text → Bytes) where
  text_bytes-all :
      (value : Text) (raw : Bytes)
      → decode raw ≡ some value
      → text_bytes decode encode (length raw) raw ≡ some (value, [])
  unfolding text_bytes
  text_bytes-all value raw h =
      let whole : ltb (length raw) (length raw) ≡ false = ground arith in
      rw (whole, take_all raw, h, drop_all raw, text_bytes) refl

  text_field-at :
      (n : ℕ) (buf body : Bytes)
      → strict_varint buf ≡ some (n, body)
      → text_field decode encode buf ≡ text_bytes decode encode n body
  unfolding text_field
  text_field-at n buf body h = rw (h, text_field) refl

  field-at :
      (value : Text) (buf rest : Bytes)
      → key buf ≡ some (1, 2, rest)
      → field decode encode value buf ≡ text_field decode encode rest
  unfolding field
  field-at value buf rest h = rw (h, field) refl

  field_text :
      (before value : Text) (raw : Bytes)
      → length raw < 2 ^ 64
      → decode raw ≡ some value
      → field decode encode before (0x0a ∷ varint (length raw) ++ raw) ≡ some (value, [])
  field_text before value raw small h =
      field-at before (0x0a ∷ varint (length raw) ++ raw) (varint (length raw) ++ raw)
        (key-value (varint (length raw) ++ raw))
      ∙ text_field-at (length raw) (varint (length raw) ++ raw) raw
          (strict_varint-varint (length raw) raw small).0
      ∙ text_bytes-all value raw h

  -- A buffer of one field, with rounds for its first byte.
  fields_one :
      (fuel b : ℕ) (value next : Text) (buf : Bytes)
      → field decode encode value (b ∷ buf) ≡ some (next, [])
      → fields decode encode (suc fuel) value (b ∷ buf) ≡ some next
  unfolding fields
  fields_one fuel b value next buf h = rw (h, fields) refl

  proto_value-raw :
      (value : Text) (raw : Bytes)
      → length raw < 2 ^ 64
      → decode raw ≡ some value
      → decode [] ≡ some []
      → proto_value decode encode (if is_empty raw then [] else 0x0a ∷ varint (length raw) ++ raw)
        ≡ some value
  unfolding proto_value fields
  proto_value-raw value [] small h empty = cc (h, empty)
  proto_value-raw value (b ∷ raw) small h empty =
      fields_one (length (varint (length (b ∷ raw)) ++ (b ∷ raw))) 0x0a [] value
        (varint (length (b ∷ raw)) ++ (b ∷ raw)) (field_text [] value (b ∷ raw) small h)

-- Where UTF-8 decodes what it encodes, and a text's encoding is shorter than 2 ** 64 bytes, reading the
-- canonical protobuf form of a value gives the value.
pub proto_value-canonical_proto :
    (decode : Bytes → Option Text) (encode : Text → Bytes) (value : Text)
    → decode (encode value) ≡ some value
    → decode [] ≡ some []
    → length (encode value) < 2 ^ 64
    → proto_value decode encode (canonical_proto decode encode value) ≡ some value
unfolding canonical_proto
proto_value-canonical_proto decode encode value h empty small =
    proto_value-raw decode encode value (encode value) small h empty
