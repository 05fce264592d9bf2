-- ===== src/Wire/Groups.antt =====
-- src/macp_sdk/canonical_json.py and multi_round.py: what the varint writer writes, and that both
-- readers read it.
use mathlib.Core.WellFounded.{Acc}
use native.Mathlib.Nat.{div-add-mod}
use native.Mathlib.Numerals.{towards_suc}
use macp_sdk_python.Envelope.{Bytes}
use macp_sdk_python.Prelude.{
  Bool-cases, [], ap, arith, eqb, false, if◌then◌else◌, inl, inr, leb, ltb, refl, some, subst, suc,
  true, zero, ℕ, ◌%◌, ◌&&◌, ◌*◌, ◌++◌, ◌+◌, ◌/◌, ◌<◌, ◌^◌, ◌∙◌, ◌∷◌, ◌≡◌,
}
use macp_sdk_python.Prelude.Order.{lt_wf}
use macp_sdk_python.Wire.{strict_loop, varint, varint_loop}

-- A number in groups of seven bits, below 128 ^ (k + 1).
unfoldable pub groups : ℕ → ℕ → Bytes
groups zero number = number ∷ []
groups (suc k) number =
    let rest = groups k (number / 128) in
    if ltb 0x7f number then (number % 128 + 128) ∷ rest else number ∷ []

varint_loop-groups :
    (k number : ℕ) (w : Acc ◌<◌ number)
    → number < 128 ^ suc k
    → varint_loop number w ≡ groups k number
unfolding varint_loop groups
varint_loop-groups zero number (Acc.intro _ smaller) h = ground arith
varint_loop-groups (suc k) number (Acc.intro _ smaller) h =
    grind
      (arith, λ (w : Acc ◌<◌ (number / 128)). varint_loop-groups k (number / 128) w (omega arith))

pub varint-groups : (number : ℕ) → number < 2 ^ 64 → varint number ≡ groups 9 number
unfolding varint
varint-groups number h = varint_loop-groups 9 number (lt_wf.apply number) (omega arith)

seven_more : (s : ℕ) → 2 ^ (s + 7) ≡ 128 * 2 ^ s
seven_more s = simp towards_suc (omega arith)

pub power_step : (count : ℕ) → 2 ^ (7 * suc count) ≡ 128 * 2 ^ (7 * count)
power_step count =
    ap (λ (t : ℕ). 2 ^ t) {x = 7 * suc count} {y = 7 * count + 7} (omega arith)
    ∙ seven_more (7 * count)

-- A number at a shift is its low group there and the rest one group further up.
pub split :
    (number count : ℕ)
    → number * 2 ^ (7 * count) ≡ number % 128 * 2 ^ (7 * count) + number / 128 * 2 ^ (7 * suc count)
split number count = omega (
  arith,
  ap (λ (t : ℕ). t * 2 ^ (7 * count)) (div-add-mod number 128),
  ap (λ (t : ℕ). number / 128 * t) (power_step count),
)

-- The tenth group has one bit.
tenth : (number : ℕ) → number * 2 ^ (7 * 9) < 2 ^ 64 → number < 2
tenth number h = omega arith

tenth_fits :
    (number count : ℕ) → number * 2 ^ (7 * count) < 2 ^ 64 → (eqb count 9 && leb 2 number) ≡ false
tenth_fits number count h = elim (Bool-cases (eqb count 9)) [
  | inl y ↦ rw y (
      ground (
        arith,
        tenth number
            (subst (λ c. number * 2 ^ (7 * c) < 2 ^ 64) {x = count} {y = 9} (ground (arith, y)) h),
      ))
  | inr n ↦ rw n refl
]

strict_last :
    (left number count value : ℕ) (rest : Bytes)
    → number < 128
    → number * 2 ^ (7 * count) < 2 ^ 64
    → strict_loop (suc left) count value (number ∷ rest)
      ≡ some (value + number * 2 ^ (7 * count), rest)
unfolding strict_loop
strict_last left number count value rest small fits =
    let same : number % 128 ≡ number = omega arith in
    let short : ltb number 0x80 ≡ true = ground arith in
    rw (tenth_fits number count fits, short, same) refl

strict_more :
    (left number count value : ℕ) (rest : Bytes)
    → strict_loop (suc left) count value ((number % 128 + 128) ∷ rest)
      ≡ strict_loop left (suc count) (value + number % 128 * 2 ^ (7 * count)) rest
unfolding strict_loop
strict_more left number count value rest =
    let same : (number % 128 + 128) % 128 ≡ number % 128 = omega arith in
    let long : ltb (number % 128 + 128) 0x80 ≡ false = ground arith in rw (long, same) refl

shifted_less :
    (number count : ℕ)
    → number * 2 ^ (7 * count) < 2 ^ 64
    → number / 128 * 2 ^ (7 * suc count) < 2 ^ 64
shifted_less number count h = omega (arith, split number count)

-- `number` is what is still to be written, from the group `count` on.
pub strict_loop-groups :
    (k number count value : ℕ) (rest : Bytes)
    → number < 128 ^ suc k
    → number * 2 ^ (7 * count) < 2 ^ 64
    → strict_loop (suc k) count value (groups k number ++ rest)
      ≡ some (value + number * 2 ^ (7 * count), rest)
unfolding groups
strict_loop-groups zero number count value rest small fits =
    strict_last 0 number count value rest small fits
strict_loop-groups (suc k) number count value rest small fits =
    elim (Bool-cases (ltb 0x7f number)) [
      | inl y ↦ rw y (
          strict_more (suc k) number count value (groups k (number / 128) ++ rest)
          ∙ strict_loop-groups k (number / 128) (suc count) (value + number % 128 * 2 ^ (7 * count))
              rest (omega arith) (shifted_less number count fits)
          ∙ ap (λ v. some (v, rest)) (omega (arith, split number count)))
      | inr n ↦ rw n (strict_last (suc k) number count value rest (ground (arith, n)) fits)
    ]
