-- ===== src/Decision/Steps.antt =====
-- What a Decision message can do to the fields of `DecisionProjection`, as a step relation.
use macp_sdk_python.Dict
use macp_sdk_python.Decision.{
  Decision, DecisionEvaluationRecord, DecisionObjectionRecord, DecisionParsers,
  DecisionProposalRecord, DecisionVoteRecord, EvaluationPayload, ObjectionPayload, ProposalPayload,
  VotePayload, add_vote, apply_mode_message, find_vote, on_evaluation, on_objection, on_proposal,
  on_vote, proposal_of, vote_of,
}
use macp_sdk_python.Dict.{Dict, has, set}
use macp_sdk_python.Envelope.{Envelope, StrMethods}
use macp_sdk_python.Prelude.{
  Bool-cases, List, Option-cases, String, inl, inr, none, refl, true, ◌==◌, ◌≡◌,
}
use macp_sdk_python.Projection.{Projection, record_anomaly}
use macp_sdk_python.Projection.Contract.{
  Moves, Moves-returned, Moves-when_type, Moves-with_payload, state-set_phase,
}

pub data Step (e : Envelope) (s t : Decision) : Type 0 where
  same : t ≡ s → Step e s t
  proposed :
      (pid : String) (r : DecisionProposalRecord)
      → t ≡ record s { proposals = Dict.set pid r s.proposals }
      → Step e s t
  evaluated : (l : List DecisionEvaluationRecord) → t ≡ record s { evaluations = l } → Step e s t
  objected : (l : List DecisionObjectionRecord) → t ≡ record s { objections = l } → Step e s t
  voted :
      (v : DecisionVoteRecord)
      → Dict.has v.proposal_id s.proposals ≡ true
      → find_vote v.proposal_id v.sender s ≡ none
      → v.sender ≡ e.sender
      → t ≡ add_vote v s
      → Step e s t

module _ (e : Envelope) (p : Projection Decision) where
  on_proposal-Step : (x : ProposalPayload) → Step e p.state (on_proposal e x p).state
  unfolding on_proposal
  on_proposal-Step x = elim (Bool-cases (p.phase == "Proposal")) [
    | inl y ↦ proposed x.proposal_id (proposal_of e x) (rw y (state-set_phase "Evaluation" _))
    | inr n ↦ proposed x.proposal_id (proposal_of e x) (rw n)
  ]

  on_evaluation-Step : (x : EvaluationPayload) → Step e p.state (on_evaluation e x p).state
  unfolding on_evaluation
  on_evaluation-Step x = evaluated _ (state-set_phase "Evaluation" _)

  on_objection-Step : (x : ObjectionPayload) → Step e p.state (on_objection e x p).state
  unfolding on_objection
  on_objection-Step x = objected _ refl

  on_vote-Step : (py : StrMethods) (x : VotePayload) → Step e p.state (on_vote py e x p).state
  unfolding on_vote record_anomaly
  on_vote-Step py x = elim (Bool-cases (Dict.has x.proposal_id p.state.proposals)) [
    | inr n ↦ same (rw n)
    | inl y ↦ elim (Option-cases (find_vote x.proposal_id e.sender p.state)) [
      | inl fresh ↦ voted (vote_of e x) y fresh refl (rw y (rw fresh (state-set_phase "Voting" _)))
      | inr (v, old) ↦ same (rw y (rw old))
    ]
  ]

  pub apply_mode_message-Step :
      (py : StrMethods) (parse : DecisionParsers)
      → Moves (Step e) p (apply_mode_message py parse e p)
  unfolding apply_mode_message
  apply_mode_message-Step py parse =
      let stay : Step e p.state p.state = same refl in
      Moves-when_type (Step e) p e _ _ _
        (Moves-with_payload (Step e) p _ (on_proposal e) stay on_proposal-Step)
        (Moves-when_type (Step e) p e _ _ _
          (Moves-with_payload (Step e) p _ (on_evaluation e) stay on_evaluation-Step)
          (Moves-when_type (Step e) p e _ _ _
            (Moves-with_payload (Step e) p _ (on_objection e) stay on_objection-Step)
            (Moves-when_type (Step e) p e _ _ _
              (Moves-with_payload (Step e) p _ (on_vote py e) stay (on_vote-Step py))
              (Moves-returned (Step e) p stay))))
