-- ===== src/Decision/Ratios.antt =====
-- src/macp_sdk/projections.py: the range of `vote_ratio`, and what a ratio below a half means.
use macp_sdk_python.Dict
use macp_sdk_python.Decision.{Decision, DecisionVoteRecord, get_dict}
use macp_sdk_python.Decision.Tally.{approvals_in, is_abstain, is_positive_vote, vote_ratio}
use macp_sdk_python.Dict.{Dict, values}
use macp_sdk_python.Envelope.{StrMethods}
use macp_sdk_python.Prelude.{
  Bool, Bool-cases, List, String, [], arith, count_if, count_if-le-length, eqb, inl, inr, is_empty,
  length, ltb, not, refl, select, ◌*◌, ◌+◌, ◌<◌, ◌||◌, ◌∷◌, ◌≡◌, ◌≤◌,
}

approvals_in-le-length :
    (py : StrMethods) (votes : List DecisionVoteRecord) → approvals_in py votes ≤ length votes
approvals_in-le-length py votes = count_if-le-length (λ v. is_positive_vote py v.vote) votes

-- The votes on a proposal that are no abstentions.
abbrev pub counted : StrMethods → String → Decision → List DecisionVoteRecord
counted py pid s = select (λ v. not (is_abstain py v.vote)) (Dict.values (get_dict pid s.votes))

count_if-complement :
    {A : Type 0} (test : A → Bool) (xs : List A)
    → count_if test xs + count_if (λ x. not (test x)) xs ≡ length xs
count_if-complement test [] = omega arith
count_if-complement test (x ∷ xs) = ground (arith, count_if-complement test xs)

is_empty-length : {A : Type 0} (xs : List A) → is_empty xs ≡ eqb (length xs) 0
is_empty-length [] = refl
is_empty-length (x ∷ xs) = ground arith

-- The ratio of a proposal's approvals is never above 1, its denominator is positive, and it is below a
-- half exactly if there are no votes but abstentions, or the approvals are outnumbered by the others.
pub vote_ratio-Bounded :
    (py : StrMethods) (pid : String) (s : Decision)
    → ((vote_ratio py pid s).numerator ≤ (vote_ratio py pid s).denominator)
      × (0 < (vote_ratio py pid s).denominator)
      × (ltb (2 * (vote_ratio py pid s).numerator) (vote_ratio py pid s).denominator ≡ (
          is_empty (counted py pid s)
          || ltb
              (approvals_in py (counted py pid s))
              (count_if (λ v. not (is_positive_vote py v.vote)) (counted py pid s))))
unfolding vote_ratio
vote_ratio-Bounded py pid s = elim (Bool-cases (eqb (length (counted py pid s)) 0)) [
  | inl y ↦ rw (is_empty-length (counted py pid s), y) (omega arith, omega arith, ground arith)
  | inr n ↦
      rw (is_empty-length (counted py pid s), n)
        (
          ground (arith, approvals_in-le-length py (counted py pid s)),
          ground (arith, n),
          ground (arith, count_if-complement (λ v. is_positive_vote py v.vote) (counted py pid s)),
        )
]
