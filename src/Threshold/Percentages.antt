-- ===== src/Threshold/Percentages.antt =====
-- src/macp_sdk/policy.py and quorum.py: the bar that a percentage sets, and what it means.
use macp_sdk_python.Dict
use macp_sdk_python.Dict.{Dict, get, has, has-some}
use macp_sdk_python.Envelope.{Bytes}
use macp_sdk_python.Prelude.{
  Bool, String, [], ap, arith, false, leb, some, suc, sym, true, zero, ℕ, ◌*◌, ◌+◌, ◌/◌, ◌<◌, ◌∙◌,
  ◌∷◌, ◌≡◌, ◌≤◌,
}
use macp_sdk_python.Prelude.Int.{ltb_ℤ, negsuc, pos, ℤ, ◌*ℤ◌, ◌-ℤ◌}
use macp_sdk_python.Quorum.{Quorum}
use macp_sdk_python.Quorum.Queries.{approval_count, finite, has_quorum, override, reaches, required}
use macp_sdk_python.Threshold.{
  Floats, Loaded, Rules, bar_of, bar_of_entry, bar_of_type, ceil_percent, clamp, decoded, div_100,
  effective_quorum_threshold, exceeds_zero, int, is_number, is_zero, json_text, mapping, percentage,
  returned, u32_max,
}

neg-pos : (v : ℕ) → pos 0 -ℤ pos (suc v) ≡ negsuc v
unfolding ◌-ℤ◌
neg-pos v = ground arith

neg-negsuc : (q : ℕ) → pos 0 -ℤ negsuc q ≡ pos (suc q)
unfolding ◌-ℤ◌
neg-negsuc q = ground arith

negsuc-times : (v n : ℕ) → negsuc v *ℤ pos (suc n) ≡ negsuc (n + v * suc n)
unfolding ◌*ℤ◌
negsuc-times v n = ground arith

-- The rounded-up percentage of two positive numbers.
percent_up : ℕ → ℕ → ℕ
percent_up v n = suc ((n + v * suc n) / 100)

ceil_percent_lem :
    (v n : ℕ) → ceil_percent (pos (suc v)) (pos (suc n)) ≡ pos (suc ((n + v * suc n) / 100))
unfolding ceil_percent
ceil_percent_lem v n =
    ap (λ a. pos 0 -ℤ div_100 (a *ℤ pos (suc n))) (neg-pos v)
    ∙ ap (λ a. pos 0 -ℤ div_100 a) (negsuc-times v n)
    ∙ neg-negsuc ((n + v * suc n) / 100)

-- Rules with a whole percentage.
abbrev pub percentage_rules : {F : Type 0} → ℕ → Rules F
percentage_rules v =
    decoded
      (("threshold", mapping (("type", json_text "percentage") ∷ ("value", int (pos v)) ∷ [])) ∷ [])

over_zero : (v : ℕ) → ltb_ℤ (pos 0) (pos (suc v)) ≡ true
over_zero v = ground arith

not_zero : (n : ℕ) → is_zero (pos (suc n)) ≡ false
not_zero n = ground arith

clamp-pos : (k : ℕ) → suc k ≤ u32_max → clamp (pos (suc k)) ≡ pos (suc k)
clamp-pos k h = ground arith

reaches-percent_up :
    (count v n : ℕ)
    → reaches count (finite (pos (percent_up v n))) ≡ leb (suc v * suc n) (100 * count)
unfolding reaches percent_up
reaches-percent_up count v n = ground arith

returned-bar : (a b : ℤ) → returned (some a) ≡ returned (some b) → a ≡ b
returned-bar a b h = ground (arith, h)

has_quorum-override :
    (rid : String) (bar : ℤ) (s : Quorum)
    → Dict.has rid s.requests ≡ true
    → has_quorum rid (override bar) s ≡ reaches (approval_count rid s) (finite bar)
unfolding has_quorum required
has_quorum-override rid bar s h = ground (arith, Dict.has-some rid s.requests h)

percent_up-le : (v n : ℕ) → suc v * suc n ≤ 100 * u32_max → suc ((n + v * suc n) / 100) ≤ u32_max
percent_up-le v n h = ground arith

module _ {F : Type 0} (floats : Floats F) (loads : Bytes → Loaded F) (converts : ℤ → Bool) where
  effective-percentage :
      (v n : ℕ) (required_approvals : ℤ)
      → suc v * suc n ≤ 100 * u32_max
      → effective_quorum_threshold floats loads converts
          (percentage_rules (suc v))
          (pos (suc n))
          required_approvals
        ≡ returned (some (pos (percent_up v n)))
  unfolding effective_quorum_threshold Dict.get percent_up
  effective-percentage v n required_approvals h =
      rw
        (
          over_zero v,
          not_zero n,
          bar_of_entry,
          bar_of,
          bar_of_type,
          exceeds_zero,
          is_number,
          percentage,
        )
        (ap (λ b. returned (some (clamp b))) (ceil_percent_lem v n)
          ∙ ap (λ b. returned (some b)) (clamp-pos ((n + v * suc n) / 100) (percent_up-le v n h)))

-- Where the rules are a percentage `v`, the session has `n` participants, both positive, `v * n` is no
-- more than 100 times the largest 32-bit number, and the request is known, the bar that the function
-- answers, passed on as `effective_threshold`, is reached exactly if the approvals are at least `v`
-- percent of the participants.
pub effective_quorum_threshold-has_quorum :
    {F : Type 0} (floats : Floats F) (loads : Bytes → Loaded F) (converts : ℤ → Bool) (v n : ℕ)
    (required_approvals bar : ℤ) (rid : String) (s : Quorum)
    → 0 < v
    → 0 < n
    → v * n ≤ 100 * u32_max
    → Dict.has rid s.requests ≡ true
    → effective_quorum_threshold floats loads converts
        (percentage_rules v)
        (pos n)
        required_approvals
      ≡ returned (some bar)
    → has_quorum rid (override bar) s ≡ leb (v * n) (100 * approval_count rid s)
effective_quorum_threshold-has_quorum floats loads converts zero n required_approvals bar rid s pv
      pn small known h =
    ground arith
effective_quorum_threshold-has_quorum floats loads converts (suc v) zero required_approvals bar rid
      s pv pn small known h =
    ground arith
effective_quorum_threshold-has_quorum floats loads converts (suc v) (suc n) required_approvals bar
      rid s pv pn small known h =
    has_quorum-override rid bar s known
    ∙ ap (λ b. reaches (approval_count rid s) (finite b))
        (returned-bar bar (pos (percent_up v n))
          (sym h ∙ effective-percentage floats loads converts v n required_approvals small))
    ∙ reaches-percent_up (approval_count rid s) v n
