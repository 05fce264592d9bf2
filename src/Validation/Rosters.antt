-- ===== src/Validation/Rosters.antt =====
-- src/macp_sdk/validation.py: what the checks of a session's start let pass.
use macp_sdk_python.Envelope.{StrMethods}
use macp_sdk_python.Prelude.{
  Bool, List, String, [], any, arith, contains, eq_iff, false, is_empty, leb, length, not, refl,
  true, ℕ, ◌&&◌, ◌==◌, ◌||◌, ◌∷◌, ◌≡◌, ◌≤◌,
}
use macp_sdk_python.Prelude.Int.{ltb_ℤ, negsuc, pos, ℤ}
use macp_sdk_python.Validation.{
  Check, and_then, no_duplicate, overflow_error, passed, passes, session_error,
  validate_participant_count, validate_participants, validate_required_field,
  validate_session_start, validate_ttl_ms,
}

abbrev any_of : List String → List String → Bool
any_of seen = any (λ p. contains p seen)

-- Whether no text stands twice in a list.
abbrev pub distinct : List String → Bool
distinct [] = true
distinct (p ∷ ps) = not (contains p ps) && distinct ps

any_of-cons :
    (x : String) (seen ps : List String) → any_of (x ∷ seen) ps ≡ (contains x ps || any_of seen ps)
any_of-cons x seen [] = refl
any_of-cons x seen (p ∷ ps) = ground (arith, any_of-cons x seen ps, eq_iff x p, eq_iff p x)

any_of-nil : (ps : List String) → any_of [] ps ≡ false
any_of-nil [] = refl
any_of-nil (p ∷ ps) = any_of-nil ps

module _ (py : StrMethods) (show : ℤ → String) (converts : ℤ → Bool) where
  no_duplicate_lem :
      (seen ps : List String)
      → passes (no_duplicate py show converts seen ps) ≡ (not (any_of seen ps) && distinct ps)
  unfolding no_duplicate
  no_duplicate_lem seen [] = refl
  no_duplicate_lem seen (p ∷ ps) =
      ground (arith, no_duplicate_lem (p ∷ seen) ps, any_of-cons p seen ps)

  passes-and_then :
      {A B : Type 0} (a : Check A) (b : Check B) → passes (and_then a b) ≡ (passes a && passes b)
  passes-and_then (passed a) b = refl
  passes-and_then (session_error m) b = refl
  passes-and_then overflow_error b = refl

-- A list of participants passes exactly if it is not empty, or may be, no name stands in it twice, and
-- it has at most 1000 names.
pub validate_participants_lem :
    (py : StrMethods) (show : ℤ → String) (converts : ℤ → Bool) (ps : List String)
    (allow_empty : Bool)
    → passes (validate_participants py show converts ps allow_empty)
      ≡ ((allow_empty || not (is_empty ps)) && distinct ps && leb (length ps) 1000)
unfolding validate_participants validate_participant_count
validate_participants_lem py show converts ps allow_empty = ground (
  arith,
  no_duplicate_lem py show converts [] ps,
  any_of-nil ps,
  passes-and_then py show converts (no_duplicate py show converts [] ps)
      (validate_participant_count py show converts (length ps)),
)

abbrev pub in_bounds : ℤ → Bool
in_bounds n = not (ltb_ℤ n (pos 1)) && not (ltb_ℤ (pos 86400000) n)

ttl-passes :
    (py : StrMethods) (show : ℤ → String) (converts : ℤ → Bool) (ttl : ℤ)
    → ((n : ℕ) → n ≤ 86400000 → converts (pos n) ≡ true)
    → passes (validate_ttl_ms py show converts ttl) ≡ in_bounds ttl
unfolding validate_ttl_ms
ttl-passes py show converts (pos n) fits = ground (arith, fits n)
ttl-passes py show converts (negsuc n) fits = ground arith

field-passes :
    (py : StrMethods) (show : ℤ → String) (converts : ℤ → Bool) (name value : String)
    → passes (validate_required_field py show converts name value)
      ≡ (not (value == "") && not (py.strip value == ""))
unfolding validate_required_field
field-passes py show converts name value = ground arith

-- Where the numbers up to 86400000 can be made floats, the start of a session passes exactly if its
-- participants do, its ttl is in [1, 86400000], and neither version is blank, whatever the intent.
pub validate_session_start_lem :
    (py : StrMethods) (show : ℤ → String) (converts : ℤ → Bool) (intent : String) (ps : List String)
    (ttl : ℤ) (mode_version configuration_version : String) (allow_empty : Bool)
    → ((n : ℕ) → n ≤ 86400000 → converts (pos n) ≡ true)
    → passes (
        validate_session_start py show converts intent ps ttl mode_version configuration_version
          allow_empty)
      ≡ ((allow_empty || not (is_empty ps))
          && distinct ps
          && leb (length ps) 1000
          && in_bounds ttl
          && (not (mode_version == "") && not (py.strip mode_version == ""))
          && (not (configuration_version == "") && not (py.strip configuration_version == "")))
unfolding validate_session_start
validate_session_start_lem py show converts intent ps ttl mv cv allow_empty fits =
    rw
      (
        passes-and_then py show converts (validate_participants py show converts ps allow_empty) (
            and_then (validate_ttl_ms py show converts ttl) (
              and_then (validate_required_field py show converts "mode_version" mv)
                (validate_required_field py show converts "configuration_version" cv))),
        passes-and_then py show converts (validate_ttl_ms py show converts ttl) (
            and_then (validate_required_field py show converts "mode_version" mv)
              (validate_required_field py show converts "configuration_version" cv)),
        passes-and_then py show converts
            (validate_required_field py show converts "mode_version" mv)
            (validate_required_field py show converts "configuration_version" cv),
        validate_participants_lem py show converts ps allow_empty,
        ttl-passes py show converts ttl fits,
        field-passes py show converts "mode_version" mv,
        field-passes py show converts "configuration_version" cv,
      )
      (ground arith)
