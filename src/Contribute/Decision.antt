-- ===== src/Contribute/Decision.antt =====
-- src/macp_sdk/multi_round.py: the value of a Contribute in legacy JSON (`_json_value`), and the choice
-- between that reading and the protobuf one (`_contribute_decision`, `_contribute_value`).
use macp_sdk_python.Contribute.{canonical_proto, proto_value}
use macp_sdk_python.Envelope.{Bytes}
use macp_sdk_python.Json.{expect, string}
use macp_sdk_python.Json.Values.{ignore_value, starts, tail, ws}
use macp_sdk_python.Prelude.{
  Bool, Option, [], eqb, false, if◌then◌else◌, is_empty, length, none, not, some, suc, true, zero,
  ℕ, ◌∷◌,
}
use macp_sdk_python.Prelude.Options.{◌>>=◌}
use macp_sdk_python.Text.{Text, behind, codes}

unfoldable pub same_text : Text → Text → Bool
same_text [] [] = true
same_text [] (d ∷ t) = false
same_text (c ∷ s) [] = false
same_text (c ∷ s) (d ∷ t) = let later = same_text s t in if eqb c d then later else false

-- A member of the object, after its colon: the value found so far, and the text behind the member.
unfoldable pub member_value : Text → Option Text → Text → Option (Option Text × Text)
unfolding ignore_value string same_text codes
member_value name found rest =
    if not (same_text name (codes "value"))
    then ignore_value rest >>= (λ after. some (found, after))
    else elim found [
      | some _ ↦ none
      | none ↦ string true rest >>= λ (text, after). some (some text, after)
    ]

-- What is behind a member: a comma and another member, or the closing brace.
unfoldable pub next_name : Text → Option Text
unfolding starts ws
next_name rest =
    if starts b',' rest
    then (if starts b'}' (ws (tail rest)) then none else some (ws (tail rest)))
    else if starts b'}' rest
    then some rest
    else none

-- The loop over the members. Each round takes a character at least.
unfoldable pub object_loop : ℕ → Option Text → Text → Option (Option Text × Text)
unfolding starts string expect ws member_value next_name
object_loop zero found rest = none
object_loop (suc fuel) found rest = elim (starts b'}' rest) [
  | true ↦ some (found, tail rest)
  | false ↦ do
    (name, after_name) ← string true rest
    after_colon ← expect b':' (ws after_name)
    (value, behind) ← member_value name found (ws after_colon)
    next ← next_name (ws behind)
    object_loop fuel value next
]

unfoldable pub json_array : Text → Option (Option Text × Text)
unfolding string expect ws
json_array rest = do
  (text, after) ← string true (ws rest)
  behind ← expect b']' (ws after)
  some (some text, behind)

unfoldable pub json_object : Text → Option (Option Text × Text)
unfolding expect object_loop ws
json_object rest = do inner ← expect b'{' rest; object_loop (suc (length inner)) none (ws inner)

unfoldable pub read_json : Text → Option Text
unfolding starts ws json_array json_object
read_json text = do
  (found, behind) ← elim (starts b'[' (ws text)) [
    | true ↦ json_array (tail (ws text))
    | false ↦ json_object (ws text)
  ]
  if is_empty (ws behind) then found else none

pub data Reading : Type 0 where
  json proto : Reading

-- `decode` and `encode` are UTF-8's, as for the protobuf form.
module _ (decode : Bytes → Option Text) (encode : Text → Bytes) where
  unfoldable pub json_value : Bytes → Option Text
  unfolding read_json
  json_value payload = decode payload >>= read_json

  -- `_canonical_proto(from_proto) != payload`
  unfoldable pub is_canonical : Text → Bytes → Bool
  unfolding canonical_proto same_text
  is_canonical value payload = same_text (canonical_proto decode encode value) payload

  unfoldable pub proto_reading : Option Text → Option (Reading × Text)
  proto_reading none = none
  proto_reading (some value) = some (proto, value)

  unfoldable pub choose : Bytes → Option Text → Option Text → Option (Reading × Text)
  unfolding proto_reading is_canonical
  choose payload from_proto none = proto_reading from_proto
  choose payload none (some value) = some (json, value)
  choose payload (some prior) (some value) =
      if not (is_canonical prior payload) then some (json, value) else proto_reading (some prior)

  unfoldable pub contribute_decision : Bytes → Option (Reading × Text)
  unfolding choose proto_value json_value
  contribute_decision [] = none
  contribute_decision (b ∷ payload) =
      choose (b ∷ payload) (proto_value decode encode (b ∷ payload)) (json_value (b ∷ payload))

  unfoldable pub contribute_value : Bytes → Option Text
  unfolding contribute_decision
  contribute_value payload = contribute_decision payload >>= λ (_, value). some value
