-- ===== src/Retry.antt =====
-- src/macp_sdk/retry.py: `retry_send` over a client that answers each attempt.
pub mod Bounds
use macp_sdk_python.Prelude.{
  Bool, List, Option, String, [], contains, false, if◌then◌else◌, ltb, none, some, suc, zero, ℕ,
  ◌∷◌,
}
use macp_sdk_python.Prelude.Int.{negsuc, pos, ℤ}

-- A float is its bit pattern.
pub record RetryPolicy : Type 0 where
  pub max_retries : ℤ
  pub backoff_base : ℕ
  pub backoff_max : ℕ
  pub retryable_codes : List String

-- What `client.send(envelope, auth=auth)` does: it returns, or raises `MacpTransportError`,
-- `MacpAckError` with a failure code, or another exception.
pub data Answer (A : Type 0) : Type 0 where
  acked : A → Answer A
  transport_error : String → Answer A
  ack_error : String → Answer A
  other_error : String → Answer A

-- What `time.sleep(delay)` does: it returns after the pause, or raises `ValueError`, for a negative delay
-- or a NaN, or `OverflowError`, for one that is too large.
pub data Slept : Type 0 where
  woke sleep_value_error sleep_overflow_error : Slept

-- `value_error` and `overflow_error` come out of the pause; `retry_error` is `MacpRetryError`, with the exception that it is raised from.
pub data Outcome (A : Type 0) : Type 0 where
  returned : A → Outcome A
  raised : Answer A → Outcome A
  value_error : Outcome A
  overflow_error : Outcome A
  retry_error : Option (Answer A) → Outcome A

pub data Event : Type 0 where
  sent : Event
  slept : ℕ → Event

-- The outcome of a call, and what it did until then.
abbrev pub Run : Type 0 → Type 0
Run A = Outcome A × List Event

-- `attempt < pol.max_retries`
abbrev pub below : ℕ → ℤ → Bool
below attempt (pos n) = ltb attempt n
below attempt (negsuc n) = false

-- How often `range(1 + pol.max_retries)` runs the loop.
abbrev pub rounds : ℤ → ℕ
rounds (pos n) = suc n
rounds (negsuc n) = 0

-- `delay_of base bound attempt` is Python's `min(base * (2**attempt), bound)`, or `none` where the
-- power is too large for a float; `sleep` is `time.sleep`. `client attempt` is the answer to that attempt.
module _ {A : Type 0} (delay_of : ℕ → ℕ → ℕ → Option ℕ) (sleep : ℕ → Slept) (pol : RetryPolicy)
    (client : ℕ → Answer A) where
  -- The handlers of the `try`: whether an answer leaves the loop, and how.
  unfoldable pub leaves : Answer A → Option (Outcome A)
  leaves (acked a) = some (returned a)
  leaves (transport_error m) = none
  leaves (ack_error code) =
      if contains code pol.retryable_codes then none else some (raised (ack_error code))
  leaves (other_error m) = some (raised (other_error m))

  -- `time.sleep(delay)`, and the rest of the loop if that returns.
  unfoldable pub pause : ℕ → Run A → Run A
  pause delay rest = elim (sleep delay) [
    | woke ↦ (rest.0, slept delay ∷ rest.1)
    | sleep_value_error ↦ (value_error, [])
    | sleep_overflow_error ↦ (overflow_error, [])
  ]

  -- The pause before the next attempt, and the rest of the loop after it.
  unfoldable pub back_off : ℕ → Run A → Run A
  unfolding pause
  back_off attempt rest =
      if below attempt pol.max_retries
      then elim (delay_of pol.backoff_base pol.backoff_max attempt) [
        | none ↦ (overflow_error, [])
        | some delay ↦ pause delay rest
      ]
      else rest

  unfoldable pub round : ℕ → Run A → Run A
  unfolding leaves back_off
  round attempt rest = elim (leaves (client attempt)) [
    | some outcome ↦ (outcome, sent ∷ [])
    | none ↦ ((back_off attempt rest).0, sent ∷ (back_off attempt rest).1)
  ]

  -- `left` rounds from `attempt` on.
  unfoldable pub attempts : ℕ → ℕ → Option (Answer A) → Run A
  attempts zero attempt last_error = (retry_error last_error, [])
  attempts (suc left) attempt last_error =
      round attempt (attempts left (suc attempt) (some (client attempt)))

  unfoldable pub retry_send : Run A
  retry_send = attempts (rounds pol.max_retries) 0 none
