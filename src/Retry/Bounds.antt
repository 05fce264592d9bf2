-- ===== src/Retry/Bounds.antt =====
-- src/macp_sdk/retry.py: how often `retry_send` sends and sleeps, and how it ends.
use macp_sdk_python.Prelude.{
  List, Option, [], ap, arith, false, none, refl, some, subst, suc, true, zero, ℕ, ◌+◌, ◌<◌, ◌∙◌,
  ◌∷◌, ◌≡◌, ◌≤◌,
}
use macp_sdk_python.Prelude.Int.{pos}
use macp_sdk_python.Retry.{
  Answer, Event, Outcome, RetryPolicy, Run, Slept, attempts, back_off, below, leaves, pause,
  retry_error, retry_send, round, rounds, sent, slept, woke,
}

-- How often a run sent, and how often it slept.
abbrev pub sends : List Event → ℕ
sends [] = 0
sends (sent ∷ events) = suc (sends events)
sends (slept d ∷ events) = sends events

abbrev pub sleeps : List Event → ℕ
sleeps [] = 0
sleeps (sent ∷ events) = sleeps events
sleeps (slept d ∷ events) = suc (sleeps events)

-- `retries` failed attempts from `attempt` on, each with its pause, and the one that ends the run.
abbrev pub script : (ℕ → ℕ) → ℕ → ℕ → List Event
script delay zero attempt = sent ∷ []
script delay (suc retries) attempt =
    sent ∷ slept (delay attempt) ∷ script delay retries (suc attempt)

below-pos : (attempt n : ℕ) → attempt < n → below attempt (pos n) ≡ true
below-pos attempt n h = ground arith

below-top : (n : ℕ) → below n (pos n) ≡ false
below-top n = ground arith

module _ {A : Type 0} (delay_of : ℕ → ℕ → ℕ → Option ℕ) (sleep : ℕ → Slept) (pol : RetryPolicy)
    (client : ℕ → Answer A) where
  round-Bounded :
      (attempt bound : ℕ) (rest : Run A)
      → sends rest.1 ≤ bound
      → sends (round delay_of sleep pol client attempt rest).1 ≤ suc bound
  unfolding round back_off pause
  round-Bounded attempt bound rest h = ground arith

  attempts-Bounded :
      (left attempt : ℕ) (last : Option (Answer A))
      → sends (attempts delay_of sleep pol client left attempt last).1 ≤ left
  unfolding attempts
  attempts-Bounded zero attempt last = omega arith
  attempts-Bounded (suc left) attempt last =
      round-Bounded attempt left
        (attempts delay_of sleep pol client left (suc attempt) (some (client attempt)))
        (attempts-Bounded left (suc attempt) (some (client attempt)))

  round-stops :
      (attempt : ℕ) (rest : Run A) (o : Outcome A)
      → leaves delay_of sleep pol client (client attempt) ≡ some o
      → round delay_of sleep pol client attempt rest ≡ (o, sent ∷ [])
  unfolding round
  round-stops attempt rest o h = rw (h, round) refl

  round-goes_on :
      (attempt d : ℕ) (rest : Run A)
      → leaves delay_of sleep pol client (client attempt) ≡ none
      → below attempt pol.max_retries ≡ true
      → delay_of pol.backoff_base pol.backoff_max attempt ≡ some d
      → sleep d ≡ woke
      → round delay_of sleep pol client attempt rest ≡ (rest.0, sent ∷ slept d ∷ rest.1)
  unfolding round back_off pause
  round-goes_on attempt d rest h b s w = rw (h, b, s, w, round, back_off, pause) refl

  round-last :
      (attempt : ℕ) (rest : Run A)
      → leaves delay_of sleep pol client (client attempt) ≡ none
      → below attempt pol.max_retries ≡ false
      → round delay_of sleep pol client attempt rest ≡ (rest.0, sent ∷ rest.1)
  unfolding round back_off
  round-last attempt rest h b = rw (h, b, round, back_off) refl

  -- Every attempt from `attempt` up to `before` fails in a way that is retried.
  abbrev pub Retried : ℕ → ℕ → Type 0
  Retried attempt before =
      (i : ℕ) → attempt ≤ i → i < before → leaves delay_of sleep pol client (client i) ≡ none

  -- The pause after each of these attempts is a float, and one that `time.sleep` takes.
  abbrev pub Pauses : (ℕ → ℕ) → ℕ → Type 0
  Pauses delay before =
      (i : ℕ)
      → i < before
      → (delay_of pol.backoff_base pol.backoff_max i ≡ some (delay i)) × (sleep (delay i) ≡ woke)

  module _ (n : ℕ) (delay : ℕ → ℕ) (bounded : pol.max_retries ≡ pos n) where
    attempts-one :
        (left attempt : ℕ) (last : Option (Answer A))
        → attempt < n
        → (delay_of pol.backoff_base pol.backoff_max attempt ≡ some (delay attempt))
          × (sleep (delay attempt) ≡ woke)
        → leaves delay_of sleep pol client (client attempt) ≡ none
        → attempts delay_of sleep pol client (suc left) attempt last ≡ (
          (attempts delay_of sleep pol client left (suc attempt) (some (client attempt))).0,
          sent
              ∷ slept (delay attempt)
              ∷ (attempts delay_of sleep pol client left (suc attempt) (some (client attempt))).1,
        )
    unfolding attempts
    attempts-one left attempt last h d r =
        round-goes_on attempt (delay attempt)
          (attempts delay_of sleep pol client left (suc attempt) (some (client attempt))) r
          (rw bounded (below-pos attempt n h)) d.0 d.1

    attempts-end :
        (left attempt : ℕ) (last : Option (Answer A)) (o : Outcome A)
        → leaves delay_of sleep pol client (client attempt) ≡ some o
        → attempts delay_of sleep pol client (suc left) attempt last ≡ (o, sent ∷ [])
    unfolding attempts
    attempts-end left attempt last o h =
        round-stops attempt
          (attempts delay_of sleep pol client left (suc attempt) (some (client attempt))) o h

    attempts-stops :
        (k left attempt j : ℕ) (last : Option (Answer A)) (o : Outcome A)
        → attempt + left ≡ suc n
        → attempt + k ≡ j
        → j ≤ n
        → Pauses delay j
        → Retried attempt j
        → leaves delay_of sleep pol client (client j) ≡ some o
        → attempts delay_of sleep pol client left attempt last ≡ (o, script delay k attempt)
    attempts-stops zero zero attempt j last o room at top paused retried h = ground arith
    attempts-stops (suc k) zero attempt j last o room at top paused retried h = ground arith
    attempts-stops zero (suc left) attempt j last o room at top paused retried h =
        attempts-end left attempt last o (
          subst (λ i. leaves delay_of sleep pol client (client i) ≡ some o) {x = j} {y = attempt}
            (omega arith) h)
    attempts-stops (suc k) (suc left) attempt j last o room at top paused retried h =
        attempts-one left attempt last (omega arith) (paused attempt (omega arith))
          (retried attempt (omega arith) (omega arith))
        ∙ ap (λ r. (r.0, sent ∷ slept (delay attempt) ∷ r.1))
            (attempts-stops k left (suc attempt) j (some (client attempt)) o (omega arith)
              (omega arith) top paused (λ i lo hi. retried i (omega arith) hi) h)

    attempts-runs_out :
        (k attempt : ℕ) (last : Option (Answer A))
        → attempt + k ≡ n
        → Pauses delay n
        → Retried attempt (suc n)
        → attempts delay_of sleep pol client (suc k) attempt last
          ≡ (retry_error (some (client n)), script delay k attempt)
    unfolding attempts
    attempts-runs_out zero attempt last at paused retried =
        round-last attempt (retry_error (some (client attempt)), [])
          (retried attempt (omega arith) (omega arith)) (rw bounded (ground arith))
        ∙ ap (λ i. (retry_error (some (client i)), sent ∷ [])) {x = attempt} {y = n} (omega arith)
    attempts-runs_out (suc k) attempt last at paused retried =
        attempts-one (suc k) attempt last (omega arith) (paused attempt (omega arith))
          (retried attempt (omega arith) (omega arith))
        ∙ ap (λ r. (r.0, sent ∷ slept (delay attempt) ∷ r.1))
            (attempts-runs_out k (suc attempt) (some (client attempt)) (omega arith) paused
              (λ i lo hi. retried i (omega arith) hi))

-- `retry_send` never sends more often than `1 + max_retries` times, and never with a negative one.
pub retry_send-Bounded :
    {A : Type 0} (delay_of : ℕ → ℕ → ℕ → Option ℕ) (sleep : ℕ → Slept) (pol : RetryPolicy)
    (client : ℕ → Answer A)
    → sends (retry_send delay_of sleep pol client).1 ≤ rounds pol.max_retries
unfolding retry_send
retry_send-Bounded delay_of sleep pol client =
    attempts-Bounded delay_of sleep pol client (rounds pol.max_retries) 0 none

-- Where attempt `j`, counted from 0 and at most `max_retries`, is the first that is not retried, and the
-- pauses after the attempts before it are floats that `time.sleep` takes, `retry_send` ends as that
-- attempt does, at once, after exactly the `j` failed attempts before it, each with its pause.
pub retry_send-stops :
    {A : Type 0} (delay_of : ℕ → ℕ → ℕ → Option ℕ) (sleep : ℕ → Slept) (pol : RetryPolicy)
    (client : ℕ → Answer A) (n j : ℕ) (delay : ℕ → ℕ) (o : Outcome A)
    → pol.max_retries ≡ pos n
    → j ≤ n
    → Pauses delay_of sleep pol client delay j
    → Retried delay_of sleep pol client 0 j
    → leaves delay_of sleep pol client (client j) ≡ some o
    → retry_send delay_of sleep pol client ≡ (o, script delay j 0)
unfolding retry_send
retry_send-stops delay_of sleep pol client n j delay o bounded top paused retried h =
    ap (λ m. attempts delay_of sleep pol client (rounds m) 0 none) bounded
    ∙ (attempts-stops delay_of sleep pol client n delay bounded j (suc n) 0 j none o (omega arith)
        (omega arith) top paused retried h)

-- Where every one of the `1 + max_retries` attempts fails in a way that is retried, and the pauses after
-- all but the last are floats that `time.sleep` takes, `retry_send` sends exactly that often, pauses between the attempts and not after the last,
-- and raises a `MacpRetryError` from the last attempt's exception.
pub retry_send-runs_out :
    {A : Type 0} (delay_of : ℕ → ℕ → ℕ → Option ℕ) (sleep : ℕ → Slept) (pol : RetryPolicy)
    (client : ℕ → Answer A) (n : ℕ) (delay : ℕ → ℕ)
    → pol.max_retries ≡ pos n
    → Pauses delay_of sleep pol client delay n
    → Retried delay_of sleep pol client 0 (suc n)
    → retry_send delay_of sleep pol client ≡ (retry_error (some (client n)), script delay n 0)
unfolding retry_send
retry_send-runs_out delay_of sleep pol client n delay bounded paused retried =
    ap (λ m. attempts delay_of sleep pol client (rounds m) 0 none) bounded
    ∙ (attempts-runs_out delay_of sleep pol client n delay bounded n 0 none (omega arith) paused
        retried)
