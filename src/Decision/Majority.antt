-- ===== src/Decision/Majority.antt =====
-- `majority_winner`: it names a proposal exactly if that proposal has the majority.
use macp_sdk_python.Dict
use macp_sdk_python.Decision.{
  Decision, DecisionParsers, DecisionVoteRecord, decision_after, decision_projection, get_dict,
}
use macp_sdk_python.Decision.Lawful.{decision_projection-IsLawful}
use macp_sdk_python.Decision.Steps.{
  Step, apply_mode_message-Step, evaluated, objected, proposed, same, voted,
}
use macp_sdk_python.Decision.Tally.{
  Votes, approvals_in, first_majority, is_abstain, is_positive_vote, majority_winner, non_abstain,
  non_abstain_in, vote_totals,
}
use macp_sdk_python.Dict.{Dict, get, keys, values}
use macp_sdk_python.Dict.Keys.{UniqueKeys, UniqueKeys-set}
use macp_sdk_python.Envelope.{Envelope, StrMethods}
use macp_sdk_python.Prelude.{
  Bool-cases, List, String, [], ap, arith, contains, eq_iff, eqb, false, if◌then◌else◌, inl, inr,
  is_empty, none, some, true, ℕ, ◌*◌, ◌<◌, ◌↔◌, ◌∷◌, ◌≡◌, ◌≤◌,
}
use macp_sdk_python.Projection.Replay.{feed_state_induction}

-- The votes of one approval form are no abstentions. `str.strip` removes white space, which
-- `str.upper` keeps and "ABSTAIN" has none of.
pub record UpperLaw (py : StrMethods) : Type 0 where
  pub abstain_is_stripped : (s : String) → py.upper s ≡ "ABSTAIN" → py.strip s ≡ s

module _ (py : StrMethods) where
  abbrev pub approvals : String → Votes → ℕ
  approvals pid votes = approvals_in py (Dict.values (get_dict pid votes))

  positive_counts :
      UpperLaw py → (vote : String) → is_positive_vote py vote ≡ true → is_abstain py vote ≡ false
  unfolding is_positive_vote is_abstain
  positive_counts law vote h = elim (Bool-cases (is_abstain py vote)) [
    | inr n ↦ n
    | inl y ↦
        let u : py.upper vote ≡ "ABSTAIN" = (eq_iff _ "ABSTAIN").0 y in
        cc (
          rw (law.abstain_is_stripped vote u) at h,
          ap (λ s. contains s ("APPROVE" ∷ "APPROVED" ∷ "YES" ∷ "ACCEPT" ∷ "ACCEPTED" ∷ [])) u,
        )
  ]

  approvals-le-non_abstain :
      UpperLaw py
      → (votes : List DecisionVoteRecord) → approvals_in py votes ≤ non_abstain_in py votes
  approvals-le-non_abstain law [] = omega arith
  approvals-le-non_abstain law (v ∷ votes) =
      ground (arith, positive_counts law v.vote, approvals-le-non_abstain law votes)

  -- The bound of one proposal's approvals, and what the other proposals leave of it.
  approvals_bound :
      UpperLaw py → (pid : String) (votes : Votes) → approvals pid votes ≤ non_abstain py votes
  unfolding Dict.get non_abstain
  approvals_bound law pid [] = omega arith
  approvals_bound law pid ((q, sv) ∷ votes) =
      ground (arith, approvals-le-non_abstain law (Dict.values sv), approvals_bound law pid votes)

  first_majority_complete :
      UpperLaw py
      → (total : ℕ) (pid : String) (votes : Votes) → non_abstain py votes ≤ total
      → total < 2 * approvals pid votes
      → first_majority py total (vote_totals py votes) ≡ some pid
  unfolding Dict.get non_abstain first_majority vote_totals
  first_majority_complete law total pid [] b h = absurd (omega arith)
  first_majority_complete law total pid ((q, sv) ∷ votes) b h = ground (
    arith,
    eq_iff q pid,
    approvals-le-non_abstain law (Dict.values sv),
    approvals_bound law pid votes,
    first_majority_complete law total pid votes,
  )

  first_majority-key :
      (total : ℕ) (pid : String) (votes : Votes)
      → first_majority py total (vote_totals py votes) ≡ some pid
      → contains pid (Dict.keys votes) ≡ true
  unfolding first_majority vote_totals
  first_majority-key total pid [] h = cc
  first_majority-key total pid ((q, sv) ∷ votes) h =
      ground (arith, eq_iff q pid, first_majority-key total pid votes)

  first_majority_sound :
      (total : ℕ) (pid : String) (votes : Votes)
      → UniqueKeys votes
      → first_majority py total (vote_totals py votes) ≡ some pid
      → total < 2 * approvals pid votes
  unfolding Dict.get first_majority vote_totals
  first_majority_sound total pid [] u h = cc
  first_majority_sound total pid ((q, sv) ∷ votes) u h = ground (
    arith,
    eq_iff q pid,
    u.0,
    first_majority-key total pid votes,
    first_majority_sound total pid votes u.1,
  )

  winner_of :
      (total : ℕ) (pid : String) (totals : Dict.Dict ℕ)
      → 0 < total
      → first_majority py total totals ≡ some pid
      → (if is_empty totals
          then none
          else if eqb total 0
          then none
          else first_majority py total totals)
        ≡ some pid
  unfolding first_majority
  winner_of total pid [] h w = cc
  winner_of total pid (t ∷ totals) h w = ground arith

  majority_winner_iff :
      UpperLaw py
      → (s : Decision) (pid : String) → UniqueKeys s.votes
      → (majority_winner py s ≡ some pid) ↔ (non_abstain py s.votes < 2 * approvals pid s.votes)
  unfolding majority_winner
  majority_winner_iff law s pid u =
      let total = non_abstain py s.votes in
      (
        λ h. ground (arith, first_majority_sound total pid s.votes u),
        λ h.
            let named = first_majority_complete law total pid s.votes (omega arith) h in
            winner_of total pid (vote_totals py s.votes)
              (omega (arith, approvals_bound law pid s.votes)) named,
      )

Step-UniqueKeys :
    {e : Envelope} {s t : Decision} → Step e s t → UniqueKeys s.votes → UniqueKeys t.votes
Step-UniqueKeys (same r) u = rw r u
Step-UniqueKeys (proposed _ _ r) u = rw r u
Step-UniqueKeys (evaluated _ r) u = rw r u
Step-UniqueKeys (objected _ r) u = rw r u
Step-UniqueKeys (voted v _ _ _ r) u = rw r (UniqueKeys-set v.proposal_id _ _ u)

-- After any sequence of envelopes `majority_winner` names a proposal exactly if its approvals are
-- more than half of all recorded votes that are no abstentions, where `str.strip` changes no text
-- that `str.upper` takes to "ABSTAIN".
pub feed-majority_winner :
    (py : StrMethods)
    → UpperLaw py
    → (parse : DecisionParsers) (es : List Envelope) (pid : String)
    → let s = (decision_after py parse es) in
      (majority_winner py s ≡ some pid) ↔ (non_abstain py s.votes < 2 * approvals py pid s.votes)
feed-majority_winner py law parse es pid = majority_winner_iff py law _ pid (
    feed_state_induction (decision_projection py parse) (decision_projection-IsLawful py parse)
      (λ s. UniqueKeys s.votes)
      (λ e q u. Step-UniqueKeys (apply_mode_message-Step e q py parse).step u) es _ tt)
