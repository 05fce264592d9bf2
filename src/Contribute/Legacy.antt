-- ===== src/Contribute/Legacy.antt =====
-- src/macp_sdk/multi_round.py: the legacy JSON form of a value is read as the value, and the canonical
-- protobuf form is never taken for JSON.
use macp_sdk_python.Contribute.{canonical_proto, proto_value}
use macp_sdk_python.Contribute.Decision.{
  choose, contribute_decision, is_canonical, json_object, json_value, member_value, next_name,
  object_loop, proto, proto_reading, read_json, same_text,
}
use macp_sdk_python.Contribute.RoundTrip.{proto_value-canonical_proto}
use macp_sdk_python.Envelope.{Bytes}
use macp_sdk_python.Json.{escape, escape_body, escape_char, expect, string, unescape}
use macp_sdk_python.Json.RoundTrip.{string-escape}
use macp_sdk_python.Json.Values.{starts, ws}
use macp_sdk_python.Prelude.{
  Option, [], ap, arith, false, is_empty, length, none, refl, some, suc, sym, true, ℕ, ◌++◌, ◌<◌,
  ◌^◌, ◌∙◌, ◌∷◌, ◌≡◌,
}
use macp_sdk_python.Prelude.Options.{◌>>=◌}
use macp_sdk_python.Text.{Text, behind, codes}

pub same_text_refl : (t : Text) → same_text t t ≡ true
unfolding same_text
same_text_refl [] = refl
same_text_refl (c ∷ t) = ground (arith, same_text_refl t)

expect-same : (c : ℕ) (rest : Text) → expect c (c ∷ rest) ≡ some rest
unfolding expect
expect-same c rest = ground arith

-- The object that has the member "value" alone.
abbrev pub legacy : Text → Text
legacy value = b'{' ∷ escape (codes "value") ++ b':' ∷ escape value ++ b'}' ∷ []

member_value-value :
    (value rest : Text)
    → member_value (codes "value") none (escape value ++ rest) ≡ some (some value, rest)
unfolding member_value codes
member_value-value value rest =
    rw (same_text_refl (codes "value"), string-escape true value rest) refl

string-step :
    {A : Type 0} (value rest : Text) (k : Text × Text → Option A)
    → (string true (escape value ++ rest) >>= k) ≡ k (value, rest)
string-step value rest k = ap (λ r. r >>= k) (string-escape true value rest)

object_loop-legacy :
    (fuel : ℕ) (value : Text)
    → object_loop (suc (suc fuel)) none (escape (codes "value") ++ b':' ∷ escape value ++ b'}' ∷ [])
      ≡ some (some value, [])
unfolding object_loop starts ws next_name expect escape_body unescape escape_char
object_loop-legacy fuel value =
    string-step (codes "value") (b':' ∷ escape value ++ b'}' ∷ []) (λ (name, after_name).
      expect b':' (ws after_name) >>= λ after_colon.
      member_value name none (ws after_colon) >>= λ (found, behind).
      next_name (ws behind) >>= object_loop (suc fuel) found)
    ∙ ap (λ r. r >>= λ (found, behind). next_name (ws behind) >>= object_loop (suc fuel) found)
        (member_value-value value (b'}' ∷ []))

json_object-legacy : (value : Text) → json_object (legacy value) ≡ some (some value, [])
unfolding json_object expect ws
json_object-legacy value =
    object_loop-legacy (length (escape_body (codes "value") ++ b':' ∷ escape value ++ b'}' ∷ []))
      value

read_json-legacy : (value : Text) → read_json (legacy value) ≡ some value
unfolding read_json starts ws
read_json-legacy value = rw (json_object-legacy value) refl

-- Where UTF-8 decodes what it encodes, the JSON object whose one member "value" is the escaped form of a
-- text is read as that text.
pub json_value-legacy :
    (decode : Bytes → Option Text) (encode : Text → Bytes) (value : Text)
    → decode (encode (legacy value)) ≡ some (legacy value)
    → json_value decode encode (encode (legacy value)) ≡ some value
unfolding json_value
json_value-legacy decode encode value h = rw h (read_json-legacy value)

choose-canonical :
    (decode : Bytes → Option Text) (encode : Text → Bytes) (payload : Bytes) (value : Text)
    (from_json : Option Text)
    → canonical_proto decode encode value ≡ payload
    → choose decode encode payload (some value) from_json ≡ some (proto, value)
unfolding choose is_canonical proto_reading
choose-canonical decode encode payload value none h = refl
choose-canonical decode encode payload value (some text) h =
    let same =
      ap (λ p. same_text (canonical_proto decode encode value) p) (sym h)
      ∙ same_text_refl (canonical_proto decode encode value) in
    rw same refl

-- A payload that is not empty, and is the canonical form of what it reads as.
decided :
    (decode : Bytes → Option Text) (encode : Text → Bytes) (payload : Bytes) (value : Text)
    → is_empty payload ≡ false
    → proto_value decode encode payload ≡ some value
    → canonical_proto decode encode value ≡ payload
    → contribute_decision decode encode payload ≡ some (proto, value)
unfolding contribute_decision
decided decode encode [] value nonempty h same = cc nonempty
decided decode encode (b ∷ payload) value nonempty h same =
    ap (λ r. choose decode encode (b ∷ payload) r (json_value decode encode (b ∷ payload))) h
    ∙ choose-canonical decode encode (b ∷ payload) value (json_value decode encode (b ∷ payload))
        same

canonical_proto-nonempty :
    (decode : Bytes → Option Text) (encode : Text → Bytes) (value : Text)
    → is_empty (encode value) ≡ false
    → is_empty (canonical_proto decode encode value) ≡ false
unfolding canonical_proto
canonical_proto-nonempty decode encode value h = rw h refl

-- Where UTF-8 decodes what it encodes, and a text's encoding is not empty and shorter than 2 ** 64
-- bytes, the canonical protobuf form of the text is read as protobuf, and as that text, even where it is
-- JSON as well.
pub contribute_decision-canonical_proto :
    (decode : Bytes → Option Text) (encode : Text → Bytes) (value : Text)
    → decode (encode value) ≡ some value
    → decode [] ≡ some []
    → is_empty (encode value) ≡ false
    → length (encode value) < 2 ^ 64
    → contribute_decision decode encode (canonical_proto decode encode value) ≡ some (proto, value)
contribute_decision-canonical_proto decode encode value h empty nonempty small =
    decided decode encode (canonical_proto decode encode value) value
      (canonical_proto-nonempty decode encode value nonempty)
      (proto_value-canonical_proto decode encode value h empty small) refl
