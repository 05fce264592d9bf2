-- ===== src/Proposal/Steps.antt =====
-- What a Proposal message can do to the fields of `ProposalProjection`, as a step relation.
use macp_sdk_python.Dict
use macp_sdk_python.Dict.{Dict, has}
use macp_sdk_python.Envelope.{Envelope}
use macp_sdk_python.Prelude.{Bool-cases, String, arith, inl, inr, refl, true, ◌&&◌, ◌≡◌}
use macp_sdk_python.Projection.{Projection}
use macp_sdk_python.Projection.Contract.{
  Moves, Moves-returned, Moves-when_type, Moves-with_payload, state-set_phase,
}
use macp_sdk_python.Proposal.{
  Negotiation, ProposalAcceptRecord, ProposalParsers, ProposalRecord, RejectPayload, add_accept,
  add_rejection, apply_mode_message, counter_of, mark, on_accept, on_counter, on_proposal,
  on_reject, on_withdraw, proposal_of, put_proposal,
}

pub data Step (e : Envelope) (s t : Negotiation) : Type 0 where
  same : t ≡ s → Step e s t
  opened : (r : ProposalRecord) → r.status ≡ "open" → t ≡ put_proposal r s → Step e s t
  accepted : (a : ProposalAcceptRecord) → a.sender ≡ e.sender → t ≡ add_accept a s → Step e s t
  rejected : (x : RejectPayload) → t ≡ add_rejection e x s → Step e s t
  ended :
      (x : RejectPayload)
      → x.terminal ≡ true
      → t ≡ mark x.proposal_id "rejected" (add_rejection e x s)
      → Step e s t
  withdrawn : (pid : String) → t ≡ mark pid "withdrawn" s → Step e s t

module _ (e : Envelope) (p : Projection Negotiation) where
  on_reject-Step : (x : RejectPayload) → Step e p.state (on_reject e x p).state
  unfolding on_reject
  on_reject-Step x = elim (Bool-cases (x.terminal && Dict.has x.proposal_id p.state.proposals)) [
    | inl y ↦ ended x (ground arith) (rw y (state-set_phase "TerminalRejected" _))
    | inr n ↦ rejected x (rw n)
  ]

  pub apply_mode_message-Step :
      (parse : ProposalParsers) → Moves (Step e) p (apply_mode_message parse e p)
  unfolding apply_mode_message on_proposal on_counter on_accept on_withdraw
  apply_mode_message-Step parse =
      let R = Step e in
      let stay : Step e p.state p.state = same refl in
      Moves-when_type R p e _ _ _
        (Moves-with_payload R p _ (on_proposal e) stay (λ x. opened (proposal_of e x) refl refl))
        (Moves-when_type R p e _ _ _
          (Moves-with_payload R p _ (on_counter e) stay (λ x. opened (counter_of e x) refl refl))
          (Moves-when_type R p e _ _ _
            (Moves-with_payload R p _ (on_accept e) stay (λ x. accepted _ refl refl))
            (Moves-when_type R p e _ _ _
              (Moves-with_payload R p _ (on_reject e) stay on_reject-Step)
              (Moves-when_type R p e _ _ _
                (Moves-with_payload R p _ on_withdraw stay (λ x. withdrawn x.proposal_id refl))
                (Moves-returned R p stay)))))
