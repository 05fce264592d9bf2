-- ===== src/Threshold/Ranges.antt =====
-- src/macp_sdk/policy.py: the range of the bars that a policy sets.
use macp_sdk_python.Dict
use macp_sdk_python.Dict.{Dict, get}
use macp_sdk_python.Envelope.{Bytes}
use macp_sdk_python.Prelude.{
  Bool, Bool-cases, Option, Option-cases, String, arith, inl, inr, none, refl, some, ◌&&◌, ◌≡◌, ◌⊎◌,
}
use macp_sdk_python.Prelude.Int.{pos, ℤ, ◌≤ℤ◌}
use macp_sdk_python.Threshold.{
  Answer, Entry, Floats, Loaded, Rules, Value, bar_of, bar_of_entry, bar_of_type, ceil_percent,
  clamp, effective_quorum_threshold, exceeds_zero, float, get_or, int, is_number, json_text, leaf,
  loaded, mapping, mapping_of, no_mapping, other, overflow_error, percentage, recursion_error,
  returned, rounded, too_deep, u32_max,
}

-- A bar, where there is one, is at least 1 and fits 32 bits.
abbrev pub IsInRange : Answer → Type 0
IsInRange (returned none) = Unit
IsInRange (returned (some bar)) = (pos 1 ≤ℤ bar) × (bar ≤ℤ pos u32_max)
IsInRange overflow_error = Unit
IsInRange recursion_error = Unit

clamp-IsInRange : (n : ℤ) → IsInRange (returned (some (clamp n)))
clamp-IsInRange n = ground arith

module _ {F : Type 0} (floats : Floats F) (loads : Bytes → Loaded F) (converts : ℤ → Bool) where
  rounded-IsInRange : (v : Value F) → IsInRange (rounded floats loads converts v)
  unfolding rounded
  rounded-IsInRange (int v) = elim (Bool-cases (converts v)) [
    | inl y ↦ rw y (clamp-IsInRange v)
    | inr n ↦ rw n tt
  ]
  rounded-IsInRange (float f) = elim (Bool-cases (floats.is_infinite f)) [
    | inl y ↦ rw y (ground arith)
    | inr n ↦ rw n (clamp-IsInRange (floats.ceil f))
  ]
  rounded-IsInRange (json_text s) = tt
  rounded-IsInRange other = tt

  percentage-IsInRange : (v : Value F) (n : ℤ) → IsInRange (percentage floats loads converts v n)
  unfolding percentage
  percentage-IsInRange (int v) n = clamp-IsInRange (ceil_percent v n)
  percentage-IsInRange (float f) n = elim (Bool-cases (floats.is_whole f)) [
    | inl y ↦ rw y (clamp-IsInRange (ceil_percent (floats.to_int f) n))
    | inr m ↦ rw m (elim (Option-cases (floats.percent f n)) [
      | inl z ↦ rw z tt
      | inr (raw, z) ↦ rw z (rounded-IsInRange (float raw))
    ])
  ]
  percentage-IsInRange (json_text s) n = tt
  percentage-IsInRange other n = tt

  bar_of_type-IsInRange :
      (ttype : String) (v : Value F) (n : ℤ)
      → IsInRange (bar_of_type floats loads converts ttype v n)
  unfolding bar_of_type
  bar_of_type-IsInRange ttype v n = ground (arith, percentage-IsInRange v n, rounded-IsInRange v)

  -- An answer that leaves the request's own bar, or is in range.
  abbrev KeepsOr : ℤ → Answer → Type 0
  KeepsOr required_approvals a = (a ≡ returned (some required_approvals)) ⊎ IsInRange a

  bar_of-KeepsOr :
      (ttype value : Value F) (n required_approvals : ℤ)
      → KeepsOr required_approvals (bar_of floats loads converts ttype value n required_approvals)
  unfolding bar_of
  bar_of-KeepsOr (json_text ttype) value n required_approvals =
      elim (Bool-cases
        (is_number floats loads converts value && exceeds_zero floats loads converts value)) [
          | inl y ↦ inr (rw y (bar_of_type-IsInRange ttype value n))
          | inr m ↦ inl (rw m refl)
        ]
  bar_of-KeepsOr (int v) value n required_approvals = inl refl
  bar_of-KeepsOr (float f) value n required_approvals = inl refl
  bar_of-KeepsOr other value n required_approvals = inl refl

  bar_of_entry-KeepsOr :
      (entry : Option (Entry F)) (n required_approvals : ℤ)
      → KeepsOr required_approvals (bar_of_entry floats loads converts entry n required_approvals)
  unfolding bar_of_entry
  bar_of_entry-KeepsOr none n required_approvals = inl refl
  bar_of_entry-KeepsOr (some (leaf v)) n required_approvals = inl refl
  bar_of_entry-KeepsOr (some (mapping t)) n required_approvals =
      bar_of-KeepsOr (get_or "type" (json_text "n_of_m") t) (get_or "value" (int (pos 0)) t) n
        required_approvals

  loaded-KeepsOr :
      (rules : Rules F) (n required_approvals : ℤ) (l : Loaded F)
      → mapping_of floats loads converts rules ≡ l
      → KeepsOr required_approvals
          (effective_quorum_threshold floats loads converts rules n required_approvals)
  unfolding effective_quorum_threshold
  loaded-KeepsOr rules n required_approvals too_deep z = inr (rw (z, effective_quorum_threshold) tt)
  loaded-KeepsOr rules n required_approvals no_mapping z =
      inl (rw (z, effective_quorum_threshold) refl)
  loaded-KeepsOr rules n required_approvals (loaded m) z =
      rw (z, effective_quorum_threshold)
        (bar_of_entry-KeepsOr (Dict.get "threshold" m) n required_approvals)

-- Whatever the rules, the function answers with the request's own bar, with none, with an error, or with
-- a bar that is at least 1 and fits 32 bits.
pub effective_quorum_threshold-IsInRange :
    {F : Type 0} (floats : Floats F) (loads : Bytes → Loaded F) (converts : ℤ → Bool)
    (rules : Rules F) (n required_approvals : ℤ)
    → (effective_quorum_threshold floats loads converts rules n required_approvals
        ≡ returned (some required_approvals))
      ⊎ IsInRange (effective_quorum_threshold floats loads converts rules n required_approvals)
effective_quorum_threshold-IsInRange floats loads converts rules n required_approvals =
    loaded-KeepsOr floats loads converts rules n required_approvals
      (mapping_of floats loads converts rules) refl
