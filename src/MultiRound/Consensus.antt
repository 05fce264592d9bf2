-- ===== src/MultiRound/Consensus.antt =====
-- Convergence of a multi-round session, against the value on which the participants agree.
use macp_sdk_python.Dict
use macp_sdk_python.Contribute.Decision.{same_text}
use macp_sdk_python.Dict.{Dict, get}
use macp_sdk_python.MultiRound.{MultiRound, include, is_missing, value_set}
use macp_sdk_python.MultiRound.Steps.{checked, settled}
use macp_sdk_python.Prelude.{
  Bool, Bool-cases, List, Option, Option-cases, String, [], all, any, ap, arith, false,
  if◌then◌else◌, inl, inr, is_empty, none, refl, some, sym, true, ℕ, ◌&&◌, ◌∙◌, ◌∷◌, ◌≡◌,
}
use macp_sdk_python.Text.{Text}

both : (c d : ℕ) (s t : Text) → same_text (c ∷ s) (d ∷ t) ≡ true → (c ≡ d) × (same_text s t ≡ true)
unfolding same_text
both c d s t h = (ground (arith, h), ground (arith, h))

pub same_text_sound : (s t : Text) → same_text s t ≡ true → s ≡ t
unfolding same_text
same_text_sound [] [] h = refl
same_text_sound [] (d ∷ t) h = cc
same_text_sound (c ∷ s) [] h = cc
same_text_sound (c ∷ s) (d ∷ t) h =
    let (c_d, rest) = both c d s t h in
    ap (λ x. x ∷ s) c_d ∙ ap (λ x. d ∷ x) (same_text_sound s t rest)

-- The sender's latest contribution is this value.
unfoldable pub holds : Text → Dict.Dict Text → String → Bool
holds v d name = elim (Dict.get name d) [ none ↦ false | some w ↦ same_text v w ]

-- The first participant's latest value, if it is everyone's.
unfoldable pub common_value : List String → Dict.Dict Text → Option Text
common_value [] d = none
common_value (p ∷ ps) d = elim (Dict.get p d) [
  | none ↦ none
  | some v ↦ if all (holds v d) ps then some v else none
]

missing-holds :
    (v : Text) (d : Dict.Dict Text) (ps : List String)
    → any (is_missing d) ps ≡ true
    → all (holds v d) ps ≡ false
unfolding is_missing holds
missing-holds v d [] h = cc
missing-holds v d (p ∷ ps) h = ground (arith, missing-holds v d ps)

absorbed :
    (v w : Text) (vs : List Text)
    → any (same_text w) vs ≡ true
    → all (same_text v) vs ≡ (same_text v w && all (same_text v) vs)
absorbed v w [] h = cc
absorbed v w (x ∷ vs) h = elim (Bool-cases (same_text w x)) [
  | inl y ↦ rw (same_text_sound w x y) ground arith
  | inr n ↦ ground (arith, absorbed v w vs)
]

all-include :
    (v w : Text) (vs : List Text)
    → all (same_text v) (include w vs) ≡ (same_text v w && all (same_text v) vs)
unfolding include
all-include v w vs = elim (Bool-cases (any (same_text w) vs)) [
  | inl y ↦ rw y (absorbed v w vs y)
  | inr n ↦ rw n refl
]

-- Where no one is missing, the set holds one value exactly if the others hold the first one's.
all-value_set :
    (v : Text) (d : Dict.Dict Text) (ps : List String)
    → any (is_missing d) ps ≡ false
    → all (same_text v) (value_set ps d) ≡ all (holds v d) ps
unfolding value_set is_missing holds
all-value_set v d [] h = refl
all-value_set v d (p ∷ ps) h = elim (Option-cases (Dict.get p d)) [
  | inl n ↦ ground (arith, n)
  | inr (w, y) ↦ ground (arith, y, all-include v w (value_set ps d), all-value_set v d ps)
]

settled-disagree :
    (v : Text) (vs : List Text) (s : MultiRound)
    → all (same_text v) vs ≡ false
    → settled (include v vs) s ≡ s
unfolding include
settled-disagree v [] s h = cc
settled-disagree v (x ∷ []) s h = ground arith
settled-disagree v (x ∷ y ∷ vs) s h = elim (Bool-cases (any (same_text v) (x ∷ y ∷ vs))) [
  | inl found ↦ rw found refl
  | inr n ↦ rw n refl
]

absorb :
    (v w : Text) (vs : List Text)
    → same_text v w ≡ true
    → include v vs ≡ v ∷ []
    → include v (include w vs) ≡ v ∷ []
unfolding include
absorb v w vs first h =
    let equal = same_text_sound v w first in
    ap (λ x. include v (include x vs)) (sym equal)
    ∙ ap (include v) h
    ∙ (rw (ap (same_text v) equal ∙ first) refl)

include-agree :
    (v : Text) (d : Dict.Dict Text) (ps : List String)
    → all (holds v d) ps ≡ true
    → include v (value_set ps d) ≡ v ∷ []
unfolding include value_set holds
include-agree v d [] h = refl
include-agree v d (p ∷ ps) h = elim (Option-cases (Dict.get p d)) [
  | inl n ↦ ground (arith, n)
  | inr (w, y) ↦
      let first : same_text v w ≡ true = ground (arith, y, h) in
      let ih = include-agree v d ps (ground (arith, y, h)) in
      rw (y, value_set) (absorb v w (value_set ps d) first ih)
]

holds-missing :
    (v : Text) (d : Dict.Dict Text) (ps : List String)
    → all (holds v d) ps ≡ true
    → any (is_missing d) ps ≡ false
holds-missing v d ps h = elim (Bool-cases (any (is_missing d) ps)) [
  | inl y ↦ cc (missing-holds v d ps y, h)
  | inr n ↦ n
]

module _ (d : Dict.Dict Text) (s : MultiRound) where
  checked_cons :
      (p : String) (ps : List String) (v : Text)
      → Dict.get p d ≡ some v
      → any (is_missing d) ps ≡ false
      → settled (include v (value_set ps d)) s ≡ (
          if all (holds v d) ps then record s { converged = true; converged_value = some v } else s)
  checked_cons p ps v found present = elim (Bool-cases (all (holds v d) ps)) [
    | inl y ↦ rw (y, include-agree v d ps y) refl
    | inr n ↦ rw n (settled-disagree v (value_set ps d) s (all-value_set v d ps present ∙ n))
  ]

  checked_list :
      (ps : List String)
      → (if is_empty ps then s else if any (is_missing d) ps then s else settled (value_set ps d) s)
        ≡ (elim (common_value ps d) [
          | none ↦ s
          | some v ↦ record s { converged = true; converged_value = some v }
        ])
  unfolding common_value is_missing value_set
  checked_list [] = refl
  checked_list (p ∷ ps) = elim (Option-cases (Dict.get p d)) [
    | inl n ↦ ground (arith, n)
    | inr (v, found) ↦ elim (Bool-cases (any (is_missing d) ps)) [
      | inl y ↦ ground (arith, found, y, missing-holds v d ps y)
      | inr n ↦ ground (arith, found, n, checked_cons p ps v found n)
    ]
  ]

-- What `_check_convergence` finds.
pub checked-common_value :
    (s : MultiRound)
    → checked s ≡ (elim (common_value s.participants s.contributions) [
      | none ↦ s
      | some v ↦ record s { converged = true; converged_value = some v }
    ])
checked-common_value s = checked_list s.contributions s s.participants
