-- ===== src/Tests/Contributes.antt =====
-- The payloads of a Contribute: protobuf, legacy JSON, and bytes that are refused.
use macp_sdk_python.Contribute.{
  advance, canonical_proto, field, fields, key, proto_value, skip, skip_delimited, skip_group,
  skip_varint, text_bytes, text_field,
}
use macp_sdk_python.Contribute.Decision.{
  Reading, choose, contribute_decision, contribute_value, is_canonical, json, json_array,
  json_object, json_value, member_value, next_name, object_loop, proto, proto_reading, read_json,
  same_text,
}
use macp_sdk_python.Contribute.Legacy.{
  contribute_decision-canonical_proto, json_value-legacy, legacy,
}
use macp_sdk_python.Contribute.RoundTrip.{proto_value-canonical_proto}
use macp_sdk_python.Contribute.Runs.{FieldsRun, GroupRun, proto_value-terminates}
use macp_sdk_python.Envelope.{Bytes}
use macp_sdk_python.Json.{
  escape_body, escape_char, expect, hex_digits, hex_value, low_surrogate, simple_escape, string,
  string_loop, unescape, unicode_escape,
}
use macp_sdk_python.Json.Runs.{IgnoreRun, StringRun, ignore_value-terminates}
use macp_sdk_python.Json.Values.{
  begin, close, digits, drop_digits, exponent_part, fraction_part, ignore_loop, ignore_value,
  integer_part, literal_word, next_member, number, open_container, skip_key, starts, strip_word, ws,
}
use macp_sdk_python.Prelude.{Option, [], arith, none, refl, some, true, ◌∷◌, ◌≡◌}
use macp_sdk_python.Text.{Text, codes}
use macp_sdk_python.Wire.{strict_loop, strict_varint, varint, varint_loop}

abbrev pub utf8_decode : Bytes → Option Text
utf8_decode bytes = some bytes

abbrev pub utf8_encode : Text → Bytes
utf8_encode text = text

abbrev pub yes : Text
yes = b'y' ∷ b'e' ∷ b's' ∷ []

-- Field 2, a group with a varint in it, before the value.
abbrev grouped : Bytes
grouped = 0x13 ∷ 0x18 ∷ 5 ∷ 0x14 ∷ 0x0a ∷ 1 ∷ b'y' ∷ []

unfoldable pub reading_runs : Unit {0}
unfolding contribute_decision contribute_value choose proto_reading is_canonical proto_value fields
    field text_field text_bytes skip skip_group skip_varint skip_delimited advance key strict_varint
    strict_loop canonical_proto varint varint_loop json_value read_json json_object json_array
    object_loop member_value next_name same_text string string_loop unescape simple_escape expect
    starts ws ignore_value ignore_loop begin close next_member open_container skip_key number
    integer_part fraction_part exponent_part digits drop_digits literal_word strip_word codes
    escape_body escape_char hex_value hex_digits unicode_escape low_surrogate
reading_runs = tt

abbrev decided_on : Bytes → Option (Reading × Text)
decided_on = contribute_decision utf8_decode utf8_encode

group_is_skipped : proto_value utf8_decode utf8_encode grouped ≡ some (b'y' ∷ [])
unfolding reading_runs
group_is_skipped = refl

unmatched_group_end : proto_value utf8_decode utf8_encode (0x14 ∷ []) ≡ none
unfolding reading_runs
unmatched_group_end = refl

other_members_are_skipped :
    decided_on (codes "{\"n\": [1.5e3, {\"a\": null}], \"value\": \"\\u0079es\"}")
    ≡ some (json, yes)
unfolding reading_runs
other_members_are_skipped = refl

array_form : decided_on (codes "[\"yes\"]") ≡ some (json, yes)
unfolding reading_runs
array_form = refl

second_value_refused : decided_on (codes "{\"value\":\"yes\",\"value\":\"yes\"}") ≡ none
unfolding reading_runs
second_value_refused = refl

empty_refused : decided_on [] ≡ none
unfolding reading_runs
empty_refused = refl

proto_value-canonical_proto_example :
    proto_value utf8_decode utf8_encode (canonical_proto utf8_decode utf8_encode yes) ≡ some yes
proto_value-canonical_proto_example =
    proto_value-canonical_proto utf8_decode utf8_encode yes refl refl (omega arith)

proto_value-terminates_example :
    FieldsRun utf8_decode utf8_encode [] grouped (some (b'y' ∷ []))
    × GroupRun (skip 2) 2 grouped none
unfolding reading_runs
proto_value-terminates_example = proto_value-terminates utf8_decode utf8_encode grouped 2 2

json_value-legacy_example : json_value utf8_decode utf8_encode (utf8_encode (legacy yes)) ≡ some yes
json_value-legacy_example = json_value-legacy utf8_decode utf8_encode yes refl

contribute_decision-canonical_proto_example :
    contribute_decision utf8_decode utf8_encode (canonical_proto utf8_decode utf8_encode yes)
    ≡ some (proto, yes)
contribute_decision-canonical_proto_example =
    contribute_decision-canonical_proto utf8_decode utf8_encode yes refl refl refl (omega arith)

ignore_value-terminates_example :
    IgnoreRun [] (codes "[1]") (some []) × StringRun true (codes "[1]") none
unfolding reading_runs
ignore_value-terminates_example = ignore_value-terminates true (codes "[1]")
