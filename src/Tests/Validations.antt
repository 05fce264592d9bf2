-- ===== src/Tests/Validations.antt =====
-- Session ids, rosters and votes.
use Prim.Native.String.{◌++◌ as str_append}
use macp_sdk_python.Decision.Tally.{is_abstain, is_positive_vote}
use macp_sdk_python.Prelude.{
  all, Bool, List, String, [], contains, false, is_empty, leb, length, not, refl, true, ◌&&◌, ◌==◌,
  ◌||◌, ◌∷◌, ◌≡◌, ◌≤◌,
}
use macp_sdk_python.Prelude.Int.{pos, ℤ}
use macp_sdk_python.Tests.Samples.{python}
use macp_sdk_python.Text.{codes}
use macp_sdk_python.Validation.{
  no_duplicate, passed, passes, validate_participant_count, validate_participants,
  validate_session_id, validate_session_start, validate_vote,
}
use macp_sdk_python.Validation.Patterns.{base64url, matches, matches_run, uuid_shape}
use macp_sdk_python.Validation.Rosters.{
  distinct, in_bounds, validate_participants_lem, validate_session_start_lem,
}
use macp_sdk_python.Validation.SessionIds.{
  chomp, lower_base64url, validate_session_id-Base64url, validate_session_id-line_feed,
}
use macp_sdk_python.Validation.Votes.{validate_vote-counted, vote_words}

abbrev converts : ℤ → Bool
converts n = true

abbrev show : ℤ → String
show n = "a number"

abbrev uuid : String
uuid = "3f2b8c1e-9a4d-4c6b-8e2f-0123456789ab"

unfoldable checked : String → Bool
unfolding validate_session_id matches matches_run codes
checked sid = passes (validate_session_id python show converts sid)

uuid_passes : checked uuid ≡ true
unfolding checked
uuid_passes = refl

upper_case_fails : checked "3F2B8C1E-9A4D-4C6B-8E2F-0123456789AB" ≡ false
unfolding checked
upper_case_fails = refl

version_1_fails : checked "3f2b8c1e-9a4d-1c6b-8e2f-0123456789ab" ≡ false
unfolding checked
version_1_fails = refl

base64url_passes : checked "abcdefghijklmnopqrstu_" ≡ true
unfolding checked
base64url_passes = refl

too_short : checked "abcdefghijklmnopqrstu" ≡ false
unfolding checked
too_short = refl

line_feed_passes : checked "abcdefghijklmnopqrstu_\n" ≡ true
unfolding checked
line_feed_passes = refl

validate_session_id-Base64url_example :
    (22 ≤ length (chomp (codes uuid)))
    × (length (chomp (codes uuid)) ≤ 128)
    × (all base64url (chomp (codes uuid)) ≡ true)
    × ((not (matches uuid_shape (codes uuid)) || all lower_base64url (chomp (codes uuid))) ≡ true)
unfolding checked
validate_session_id-Base64url_example = validate_session_id-Base64url python show converts uuid refl

validate_session_id-line_feed_example :
    passes (validate_session_id python show converts (str_append uuid "\n"))
    ≡ passes (validate_session_id python show converts uuid)
unfolding checked
validate_session_id-line_feed_example = validate_session_id-line_feed python show converts uuid refl

abbrev roster : List String
roster = "alice" ∷ "bob" ∷ "carol" ∷ []

roster_run :
    passes (validate_participants python show converts ("bob" ∷ "alice" ∷ "bob" ∷ []) false) ≡ false
unfolding validate_participants validate_participant_count no_duplicate
roster_run = refl

validate_participants_lem_example :
    passes (validate_participants python show converts roster false)
    ≡ ((false || not (is_empty roster)) && distinct roster && leb (length roster) 1000)
validate_participants_lem_example = validate_participants_lem python show converts roster false

validate_session_start_lem_example :
    passes
      (validate_session_start python show converts "" roster (pos 60000) "1.0.0" "default" false)
    ≡ ((false || not (is_empty roster))
        && distinct roster
        && leb (length roster) 1000
        && in_bounds (pos 60000)
        && (not ("1.0.0" == "") && not ("1.0.0" == ""))
        && (not ("default" == "") && not ("default" == "")))
validate_session_start_lem_example =
    validate_session_start_lem python show converts "" roster (pos 60000) "1.0.0" "default" false
      (λ n h. refl)

validate_vote-counted_example :
    (contains "REJECT" vote_words ≡ true)
    × (validate_vote python show converts "REJECT" ≡ passed "REJECT")
    × (is_positive_vote python "REJECT" ≡ ("REJECT" == "APPROVE"))
    × (is_abstain python "REJECT" ≡ ("REJECT" == "ABSTAIN"))
unfolding validate_vote
validate_vote-counted_example =
    validate_vote-counted python show converts "REJECT" "REJECT" (λ word h. (refl, refl)) refl
