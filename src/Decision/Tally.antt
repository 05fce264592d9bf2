-- ===== src/Decision/Tally.antt =====
-- The query helpers of `DecisionProjection`.
use macp_sdk_python.Dict
use macp_sdk_python.Decision.{Decision, DecisionEvaluationRecord, DecisionVoteRecord, get_dict}
use macp_sdk_python.Dict.{Dict, values}
use macp_sdk_python.Envelope.{StrMethods}
use macp_sdk_python.Prelude.{
  Bool, List, Option, String, [], any, contains, count_if, eqb, if◌then◌else◌, is_empty, length,
  ltb, none, not, select, some, true, ℕ, ◌&&◌, ◌*◌, ◌+◌, ◌==◌, ◌∷◌,
}

abbrev pub Votes : Type 0
Votes = Dict.Dict (Dict.Dict DecisionVoteRecord)

-- A float quotient, unevaluated; `0.0` is 0 / 1.
pub record Ratio : Type 0 where
  pub numerator : ℕ
  pub denominator : ℕ

module _ (py : StrMethods) where
  unfoldable pub is_positive_vote : String → Bool
  is_positive_vote vote =
      contains (py.upper (py.strip vote))
        ("APPROVE" ∷ "APPROVED" ∷ "YES" ∷ "ACCEPT" ∷ "ACCEPTED" ∷ [])

  unfoldable pub is_abstain : String → Bool
  is_abstain vote = py.upper vote == "ABSTAIN"

  abbrev pub approvals_in : List DecisionVoteRecord → ℕ
  approvals_in = count_if (λ v. is_positive_vote v.vote)

  abbrev pub non_abstain_in : List DecisionVoteRecord → ℕ
  non_abstain_in = count_if (λ v. not (is_abstain v.vote))

  -- The keys of a dict are distinct, so each assignment to `totals` adds an entry.
  unfoldable pub vote_totals : Votes → Dict.Dict ℕ
  vote_totals [] = []
  vote_totals ((pid, sender_votes) ∷ votes) =
      (pid, approvals_in (Dict.values sender_votes)) ∷ vote_totals votes

  unfoldable pub non_abstain : Votes → ℕ
  non_abstain [] = 0
  non_abstain ((pid, sender_votes) ∷ votes) =
      non_abstain_in (Dict.values sender_votes) + non_abstain votes

  -- `count / non_abstain > 0.5`, which holds of the floats as of the numbers below 2 ** 53.
  unfoldable pub first_majority : ℕ → Dict.Dict ℕ → Option String
  first_majority total [] = none
  first_majority total ((pid, count) ∷ totals) =
      let later = first_majority total totals in if ltb total (2 * count) then some pid else later

  unfoldable pub majority_winner : Decision → Option String
  unfolding vote_totals non_abstain first_majority
  majority_winner s =
      let total = non_abstain s.votes in
      let winner = first_majority total (vote_totals s.votes) in
      if is_empty (vote_totals s.votes) then none else if eqb total 0 then none else winner

  unfoldable pub has_blocking_objection : Option String → Decision → Bool
  has_blocking_objection proposal_id s =
      any
        (λ o.
          py.lower o.severity == "critical"
          && elim proposal_id [ none ↦ true | some pid ↦ o.proposal_id == pid ])
        s.objections

  unfoldable pub is_review : DecisionEvaluationRecord → Bool
  is_review e = py.upper e.recommendation == "REVIEW"

  abbrev pub review_evaluations : Decision → List DecisionEvaluationRecord
  review_evaluations s = select is_review s.evaluations

  abbrev pub qualifying_evaluations : Decision → List DecisionEvaluationRecord
  qualifying_evaluations s = select (λ e. not (is_review e)) s.evaluations

  unfoldable pub vote_ratio : String → Decision → Ratio
  vote_ratio pid s =
      let votes = Dict.values (get_dict pid s.votes) in
      let counted = select (λ v. not (is_abstain v.vote)) votes in
      if eqb (length counted) 0
      then record { numerator = 0; denominator = 1 }
      else record { numerator = approvals_in counted; denominator = length counted }
