-- ===== src/Threshold.antt =====
-- src/macp_sdk/policy.py: `effective_quorum_threshold`, the bar that a bound policy sets for the readiness
-- helpers of the Quorum projection.
pub mod Percentages
pub mod Ranges
use macp_sdk_python.Dict
use macp_sdk_python.Contribute.{key}
use macp_sdk_python.Dict.{Dict, get}
use macp_sdk_python.Envelope.{Bytes}
use macp_sdk_python.Prelude.{
  Bool, Option, String, [], contains, eqb, false, if◌then◌else◌, none, some, true, ℕ, ◌&&◌, ◌/◌,
  ◌==◌, ◌∷◌,
}
use macp_sdk_python.Prelude.Int.{ltb_ℤ, negsuc, pos, ℤ, ◌*ℤ◌, ◌-ℤ◌}

-- What the function asks of floats. `percent f n` is `f * n / 100`, or `none` where `n` is too large
-- for a float.
pub record Floats (F : Type 0) : Type 0 where
  pub is_positive : F → Bool
  pub is_whole : F → Bool
  pub to_int : F → ℤ
  pub percent : F → ℤ → Option F
  pub is_infinite : F → Bool
  pub ceil : F → ℤ

abbrev pub u32_max : ℕ
u32_max = 4294967295

-- `min(max(1, n), _U32_MAX)`
abbrev pub clamp : ℤ → ℤ
clamp n =
    let least = if ltb_ℤ n (pos 1) then pos 1 else n in
    if ltb_ℤ (pos u32_max) least then pos u32_max else least

-- `n // 100`, rounded down.
abbrev pub div_100 : ℤ → ℤ
div_100 (pos n) = pos (n / 100)
div_100 (negsuc n) = negsuc (n / 100)

-- `n == 0`
abbrev pub is_zero : ℤ → Bool
is_zero (pos n) = eqb n 0
is_zero (negsuc n) = false

-- `d.get(key, default)`
abbrev pub get_or {ℓ} : {V : Type ℓ} → String → V → Dict.Dict V → V
get_or key v d = elim (Dict.get key d) [ none ↦ v | some w ↦ w ]

-- The function returns a bar or `None`, or raises `OverflowError` or `RecursionError`.
pub data Answer : Type 0 where
  returned : Option ℤ → Answer
  overflow_error : Answer
  recursion_error : Answer

-- `-(-value * participant_count // 100)`
unfoldable pub ceil_percent : ℤ → ℤ → ℤ
ceil_percent value participant_count = pos 0 -ℤ div_100 ((pos 0 -ℤ value) *ℤ participant_count)

-- A JSON value, where a list, a truth value, `null` and a mapping inside a threshold are `other`; a value
-- of the rules; and what the caller passes: nothing, JSON text (a descriptor's too), or a mapping.
pub data Value (F : Type 0) : Type 0 where
  int : ℤ → Value F
  float : F → Value F
  json_text : String → Value F
  other : Value F

pub data Entry (F : Type 0) : Type 0 where
  leaf : Value F → Entry F
  mapping : Dict.Dict (Value F) → Entry F

pub data Rules (F : Type 0) : Type 0 where
  absent : Rules F
  encoded : Bytes → Rules F
  decoded : Dict.Dict (Entry F) → Rules F

-- What `json.loads` gives: a mapping; a `ValueError` or another value, after which the function takes the
-- same return; or a `RecursionError`, for a text that nests too deep, which is no `ValueError`.
pub data Loaded (F : Type 0) : Type 0 where
  loaded : Dict.Dict (Entry F) → Loaded F
  no_mapping : Loaded F
  too_deep : Loaded F

-- `loads` is `json.loads`. `converts n` says that a number
-- can be made a float.
module _ {F : Type 0} (floats : Floats F) (loads : Bytes → Loaded F) (converts : ℤ → Bool) where
  -- `if not value > 0`
  unfoldable pub exceeds_zero : Value F → Bool
  exceeds_zero (int v) = ltb_ℤ (pos 0) v
  exceeds_zero (float f) = floats.is_positive f
  exceeds_zero (json_text s) = false
  exceeds_zero other = false

  -- The last lines, from `math.isinf(raw)` on.
  unfoldable pub rounded : Value F → Answer
  rounded (int v) = if converts v then returned (some (clamp v)) else overflow_error
  rounded (float f) =
      if floats.is_infinite f
      then returned (some (pos u32_max))
      else returned (some (clamp (floats.ceil f)))
  rounded (json_text s) = returned none
  rounded other = returned none

  unfoldable pub percentage : Value F → ℤ → Answer
  unfolding ceil_percent rounded
  percentage (int v) n = returned (some (clamp (ceil_percent v n)))
  percentage (float f) n =
      if floats.is_whole f
      then returned (some (clamp (ceil_percent (floats.to_int f) n)))
      else elim (floats.percent f n) [ none ↦ overflow_error | some raw ↦ rounded (float raw) ]
  percentage (json_text s) n = returned none
  percentage other n = returned none

  unfoldable pub bar_of_type : String → Value F → ℤ → Answer
  unfolding percentage rounded
  bar_of_type ttype value n =
      if ttype == "percentage"
      then (if is_zero n then returned none else percentage value n)
      else if contains ttype ("n_of_m" ∷ "count" ∷ [])
      then rounded value
      else returned none

  unfoldable pub is_number : Value F → Bool
  is_number (int v) = true
  is_number (float f) = true
  is_number (json_text s) = false
  is_number other = false

  unfoldable pub bar_of : Value F → Value F → ℤ → ℤ → Answer
  unfolding bar_of_type is_number exceeds_zero
  bar_of (json_text ttype) value n required_approvals =
      if is_number value && exceeds_zero value
      then bar_of_type ttype value n
      else returned (some required_approvals)
  bar_of (int v) value n required_approvals = returned (some required_approvals)
  bar_of (float f) value n required_approvals = returned (some required_approvals)
  bar_of other value n required_approvals = returned (some required_approvals)

  unfoldable pub bar_of_entry : Option (Entry F) → ℤ → ℤ → Answer
  unfolding bar_of
  bar_of_entry none n required_approvals = returned (some required_approvals)
  bar_of_entry (some (leaf v)) n required_approvals = returned (some required_approvals)
  bar_of_entry (some (mapping t)) n required_approvals =
      bar_of (get_or "type" (json_text "n_of_m") t) (get_or "value" (int (pos 0)) t) n
        required_approvals

  unfoldable pub mapping_of : Rules F → Loaded F
  mapping_of absent = no_mapping
  mapping_of (encoded []) = no_mapping
  mapping_of (encoded (b ∷ bytes)) = loads (b ∷ bytes)
  mapping_of (decoded m) = loaded m

  unfoldable pub effective_quorum_threshold : Rules F → ℤ → ℤ → Answer
  unfolding mapping_of bar_of_entry
  effective_quorum_threshold rules n required_approvals = elim (mapping_of rules) [
    | too_deep ↦ recursion_error
    | no_mapping ↦ returned (some required_approvals)
    | loaded m ↦ bar_of_entry (Dict.get "threshold" m) n required_approvals
  ]
