-- ===== src/Tests/Retries.antt =====
-- A client that is busy twice and answers the third time, and one that forbids the message.
use macp_sdk_python.Prelude.{
  Option, [], arith, if◌then◌else◌, ltb, none, refl, some, suc, zero, ℕ, ◌*◌, ◌+◌, ◌∷◌, ◌≡◌, ◌≤◌,
}
use macp_sdk_python.Prelude.Int.{pos}
use macp_sdk_python.Retry.{
  Answer, RetryPolicy, Slept, ack_error, acked, attempts, back_off, leaves, pause, raised,
  retry_error, retry_send, returned, round, sent, sleep_overflow_error, sleep_value_error, slept,
  transport_error, value_error, woke,
}
use macp_sdk_python.Retry.Bounds.{Pauses, Retried, retry_send-runs_out, retry_send-stops, script}

-- The bit patterns of 0.1, 0.2, 0.4 and 2.0
abbrev tenth : ℕ
tenth = 0x3fb9_9999_9999_999a

abbrev fifth : ℕ
fifth = 0x3fc9_9999_9999_999a

abbrev two_fifths : ℕ
two_fifths = 0x3fd9_9999_9999_999a

abbrev two : ℕ
two = 0x4000_0000_0000_0000

-- The default policy.
abbrev policy : RetryPolicy
policy = record {
  max_retries = pos 3;
  backoff_base = tenth;
  backoff_max = two;
  retryable_codes = "RATE_LIMITED" ∷ "INTERNAL_ERROR" ∷ [];
}

-- On positive normal floats: a power of two adds to the exponent, which is in the bits from 52 on, and
-- the order is that of the bit patterns. The integer `2 ** 1024` is too large for a float.
abbrev delay_of : ℕ → ℕ → ℕ → Option ℕ
delay_of base bound attempt =
    let product = base + attempt * 0x10_0000_0000_0000 in
    if ltb attempt 1024 then some (if ltb bound product then bound else product) else none

-- A pause below `2 ** 33` seconds is taken, and a sign bit is refused.
abbrev sleep : ℕ → Slept
sleep delay =
    if ltb delay 0x4200_0000_0000_0000
    then woke
    else if ltb 0x8000_0000_0000_0000 delay
    then sleep_value_error
    else sleep_overflow_error

abbrev delay : ℕ → ℕ
delay zero = tenth
delay (suc zero) = fifth
delay (suc (suc n)) = two_fifths

abbrev busy : ℕ → Answer ℕ
busy zero = transport_error "unavailable"
busy (suc zero) = ack_error "RATE_LIMITED"
busy (suc (suc n)) = acked 7

abbrev down : ℕ → Answer ℕ
down attempt = transport_error "unavailable"

abbrev forbidden : ℕ → Answer ℕ
forbidden attempt = ack_error "FORBIDDEN"

busy_run :
    retry_send delay_of sleep policy busy
    ≡ (returned 7, sent ∷ slept tenth ∷ sent ∷ slept fifth ∷ sent ∷ [])
unfolding retry_send attempts round back_off pause leaves
busy_run = refl

forbidden_run :
    retry_send delay_of sleep policy forbidden ≡ (raised (ack_error "FORBIDDEN"), sent ∷ [])
unfolding retry_send attempts round back_off pause leaves
forbidden_run = refl

busy-Retried : Retried delay_of sleep policy busy 0 2
unfolding leaves
busy-Retried zero lo hi = refl
busy-Retried (suc zero) lo hi = refl
busy-Retried (suc (suc i)) lo hi = ground arith

-- A policy whose delays are negative.
abbrev negative : RetryPolicy
negative = record policy {
  backoff_base = 0xbfb9_9999_9999_999a;
  backoff_max = 0xbfb9_9999_9999_999a;
}

negative_run : retry_send delay_of sleep negative busy ≡ (value_error, sent ∷ [])
unfolding retry_send attempts round back_off pause leaves
negative_run = refl

pauses : (n : ℕ) → n ≤ 3 → Pauses delay_of sleep policy busy delay n
pauses n top zero h = (refl, refl)
pauses n top (suc zero) h = (refl, refl)
pauses n top (suc (suc zero)) h = (refl, refl)
pauses n top (suc (suc (suc i))) h = absurd (omega arith)

retry_send-stops_example : retry_send delay_of sleep policy busy ≡ (returned 7, script delay 2 0)
unfolding leaves
retry_send-stops_example =
    retry_send-stops delay_of sleep policy busy 3 2 delay (returned 7) refl (omega arith)
      (pauses 2 (omega arith)) busy-Retried refl

retry_send-runs_out_example :
    retry_send delay_of sleep policy down
    ≡ (retry_error (some (transport_error "unavailable")), script delay 3 0)
unfolding leaves
retry_send-runs_out_example =
    retry_send-runs_out delay_of sleep policy down 3 delay refl (pauses 3 (omega arith))
      (λ i lo hi. refl)
