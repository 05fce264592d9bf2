-- ===== src/Decision/Lawful.antt =====
-- The Decision handler keeps the contract of `_apply_mode_message`.
use macp_sdk_python.Dict
use macp_sdk_python.Decision.{
  Decision, DecisionParsers, DecisionVoteRecord, ProposalPayload, VotePayload, apply_mode_message,
  cast_vote, on_evaluation, on_objection, on_proposal, on_vote,
}
use macp_sdk_python.Dict.{Dict, has}
use macp_sdk_python.Envelope.{Envelope, StrMethods}
use macp_sdk_python.Prelude.{Bool-cases, Option, inl, inr, none, refl, some, ◌==◌}
use macp_sdk_python.Projection.{Projection}
use macp_sdk_python.Projection.Contract.{
  Keeps, Keeps-record_anomaly, Keeps-refl, Keeps-set_phase, Keeps-state, Obeys, Obeys-returned,
  Obeys-when_type, Obeys-with_payload,
}

on_proposal-Keeps :
    (e : Envelope) (p : Projection Decision) (x : ProposalPayload) → Keeps e p (on_proposal e x p)
unfolding on_proposal
on_proposal-Keeps e p x = elim (Bool-cases (p.phase == "Proposal")) [
  | inl y ↦ rw y (Keeps-set_phase e "Evaluation" p _ refl (Keeps-state e p _))
  | inr n ↦ rw n (Keeps-state e p _)
]

cast_vote-Keeps :
    (py : StrMethods) (e : Envelope) (x : VotePayload) (o : Option DecisionVoteRecord)
    (p : Projection Decision)
    → Keeps e p (cast_vote py e x o p)
unfolding cast_vote
cast_vote-Keeps py e x none p = Keeps-set_phase e "Voting" p _ refl (Keeps-state e p _)
cast_vote-Keeps py e x (some v) p = Keeps-record_anomaly e _ p refl refl

on_vote-Keeps :
    (py : StrMethods) (e : Envelope) (p : Projection Decision) (x : VotePayload)
    → Keeps e p (on_vote py e x p)
unfolding on_vote
on_vote-Keeps py e p x = elim (Bool-cases (Dict.has x.proposal_id p.state.proposals)) [
  | inl y ↦ rw y (cast_vote-Keeps py e x _ p)
  | inr n ↦ rw n (Keeps-refl e p)
]

-- Every Decision message leaves the base class's fields to the base class, changes nothing at all
-- if its payload does not parse, and neither enters nor leaves the phase "Committed".
pub decision_projection-IsLawful :
    (py : StrMethods) (parse : DecisionParsers) (e : Envelope) (p : Projection Decision)
    → Obeys e p (apply_mode_message py parse e p)
unfolding apply_mode_message on_evaluation on_objection
decision_projection-IsLawful py parse e p =
    Obeys-when_type e _ p _ _ (Obeys-with_payload e _ (on_proposal e) p (on_proposal-Keeps e p)) (
      Obeys-when_type e _ p _ _
        (Obeys-with_payload e _ (on_evaluation e) p
          (λ x. Keeps-set_phase e "Evaluation" p _ refl (Keeps-state e p _)))
        (Obeys-when_type e _ p _ _
          (Obeys-with_payload e _ (on_objection e) p (λ x. Keeps-state e p _))
          (Obeys-when_type e _ p _ _
            (Obeys-with_payload e _ (on_vote py e) p (on_vote-Keeps py e p))
            (Obeys-returned e p p (Keeps-refl e p)))))
