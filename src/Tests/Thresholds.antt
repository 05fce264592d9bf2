-- ===== src/Tests/Thresholds.antt =====
-- Rules that ask for 60 percent, in a session of five where bob has rejected.
use macp_sdk_python.Dict
use macp_sdk_python.Dict.{Dict, get, set}
use macp_sdk_python.Envelope.{Bytes}
use macp_sdk_python.Prelude.{
  Bool, [], arith, eqb, false, if◌then◌else◌, leb, none, refl, some, true, ◌*◌, ◌∷◌, ◌≡◌, ◌⊎◌,
}
use macp_sdk_python.Prelude.Int.{ltb_ℤ, pos, ℤ, ◌*ℤ◌, ◌-ℤ◌}
use macp_sdk_python.Projection.{
  apply_envelope, feed, record_anomaly, set_phase, when_type, with_payload,
}
use macp_sdk_python.Quorum.{apply_mode_message, on_request, set_ballot}
use macp_sdk_python.Quorum.Queries.{approval_count, has_quorum, override}
use macp_sdk_python.Tests.Quorums.{opened}
use macp_sdk_python.Threshold.{
  Answer, Floats, Loaded, Rules, absent, bar_of, bar_of_entry, bar_of_type, ceil_percent,
  effective_quorum_threshold, encoded, exceeds_zero, is_number, mapping_of, no_mapping, percentage,
  recursion_error, returned, rounded, too_deep,
}
use macp_sdk_python.Threshold.Percentages.{effective_quorum_threshold-has_quorum, percentage_rules}
use macp_sdk_python.Threshold.Ranges.{IsInRange, effective_quorum_threshold-IsInRange}

-- A float that is a whole number.
abbrev floats : Floats ℤ
floats = record {
  is_positive = λ f. ltb_ℤ (pos 0) f;
  is_whole = λ f. true;
  to_int = λ f. f;
  percent = λ f n. none;
  is_infinite = λ f. false;
  ceil = λ f. f;
}

-- A decoder to which a text that begins with an array is too deep, and that gives no mapping.
abbrev loads : Bytes → Loaded ℤ
loads [] = no_mapping
loads (b ∷ bytes) = if eqb b b'[' then too_deep else no_mapping

abbrev converts : ℤ → Bool
converts n = true

unfoldable bar : Rules ℤ → ℤ → Answer
unfolding effective_quorum_threshold Dict.get bar_of_entry bar_of bar_of_type exceeds_zero is_number
    percentage rounded mapping_of ceil_percent ◌*ℤ◌ ◌-ℤ◌
bar rules n = effective_quorum_threshold floats loads converts rules n (pos 2)

sixty_of_five : bar (percentage_rules 60) (pos 5) ≡ returned (some (pos 3))
unfolding bar
sixty_of_five = refl

sixty_of_four : bar (percentage_rules 60) (pos 4) ≡ returned (some (pos 3))
unfolding bar
sixty_of_four = refl

sixty_of_none : bar (percentage_rules 60) (pos 0) ≡ returned none
unfolding bar
sixty_of_none = refl

no_rules : bar absent (pos 5) ≡ returned (some (pos 2))
unfolding bar
no_rules = refl

deep_text : bar (encoded (b'[' ∷ [])) (pos 5) ≡ recursion_error
unfolding bar
deep_text = refl

effective_quorum_threshold-IsInRange_example :
    (effective_quorum_threshold floats loads converts (percentage_rules 60) (pos 5) (pos 2)
      ≡ returned (some (pos 2)))
    ⊎ IsInRange
        (effective_quorum_threshold floats loads converts (percentage_rules 60) (pos 5) (pos 2))
effective_quorum_threshold-IsInRange_example =
    effective_quorum_threshold-IsInRange floats loads converts (percentage_rules 60) (pos 5) (pos 2)

runs : Unit {0}
unfolding feed apply_envelope apply_mode_message when_type with_payload on_request set_ballot
    set_phase record_anomaly Dict.set
runs = tt

effective_quorum_threshold-has_quorum_example :
    has_quorum "r1" (override (pos 3)) opened.state
    ≡ leb (60 * 5) (100 * approval_count "r1" opened.state)
unfolding bar runs
effective_quorum_threshold-has_quorum_example =
    effective_quorum_threshold-has_quorum floats loads converts 60 5 (pos 2) (pos 3) "r1"
      opened.state (omega arith) (omega arith) (omega arith) refl refl
