-- ===== src/Proposal/Lawful.antt =====
-- The Proposal handler keeps the contract of `_apply_mode_message`.
use macp_sdk_python.Dict
use macp_sdk_python.Dict.{Dict, has}
use macp_sdk_python.Envelope.{Envelope}
use macp_sdk_python.Prelude.{Bool-cases, inl, inr, refl, ◌&&◌}
use macp_sdk_python.Projection.{Projection}
use macp_sdk_python.Projection.Contract.{
  Keeps, Keeps-refl, Keeps-set_phase, Keeps-state, Obeys, Obeys-returned, Obeys-when_type,
  Obeys-with_payload,
}
use macp_sdk_python.Proposal.{
  Negotiation, ProposalParsers, RejectPayload, apply_mode_message, on_accept, on_counter,
  on_proposal, on_reject, on_withdraw,
}

on_reject-Keeps :
    (e : Envelope) (p : Projection Negotiation) (x : RejectPayload) → Keeps e p (on_reject e x p)
unfolding on_reject
on_reject-Keeps e p x = elim (Bool-cases (x.terminal && Dict.has x.proposal_id p.state.proposals)) [
  | inl y ↦ rw y (Keeps-set_phase e "TerminalRejected" p _ refl (Keeps-state e p _))
  | inr n ↦ rw n (Keeps-state e p _)
]

-- Every Proposal message leaves the base class's fields to the base class, changes nothing at all
-- if its payload does not parse, and neither enters nor leaves the phase "Committed".
pub proposal_projection-IsLawful :
    (parse : ProposalParsers) (e : Envelope) (p : Projection Negotiation)
    → Obeys e p (apply_mode_message parse e p)
unfolding apply_mode_message on_proposal on_counter on_accept on_withdraw
proposal_projection-IsLawful parse e p =
    Obeys-when_type e _ p _ _ (Obeys-with_payload e _ (on_proposal e) p (λ x. Keeps-state e p _)) (
      Obeys-when_type e _ p _ _ (Obeys-with_payload e _ (on_counter e) p (λ x. Keeps-state e p _)) (
        Obeys-when_type e _ p _ _ (Obeys-with_payload e _ (on_accept e) p (λ x. Keeps-state e p _))
          (Obeys-when_type e _ p _ _ (Obeys-with_payload e _ (on_reject e) p (on_reject-Keeps e p))
            (Obeys-when_type e _ p _ _
              (Obeys-with_payload e _ on_withdraw p (λ x. Keeps-state e p _))
              (Obeys-returned e p p (Keeps-refl e p))))))
