-- ===== src/Quorum/Lawful.antt =====
-- The Quorum handler keeps the contract of `_apply_mode_message`.
use macp_sdk_python.Dict
use macp_sdk_python.Dict.{Dict, has}
use macp_sdk_python.Envelope.{Envelope, StrMethods}
use macp_sdk_python.Prelude.{Bool-cases, Option, String, inl, inr, none, refl, some}
use macp_sdk_python.Projection.{Projection, record_anomaly}
use macp_sdk_python.Projection.Contract.{
  Keeps, Keeps-refl, Keeps-set_phase, Keeps-state, Obeys, Obeys-returned, Obeys-when_type,
  Obeys-with_payload,
}
use macp_sdk_python.Quorum.{
  BallotPayload, BallotRecord, Quorum, QuorumParsers, apply_mode_message, cast_ballot, on_request,
  set_ballot,
}

cast_ballot-Keeps :
    (py : StrMethods) (e : Envelope) (vote : String) (x : BallotPayload) (o : Option BallotRecord)
    (p : Projection Quorum) (s : Quorum)
    → Keeps e p (cast_ballot py e vote x o (record p { state = s }))
unfolding cast_ballot record_anomaly
cast_ballot-Keeps py e vote x none p s = Keeps-state e p _
cast_ballot-Keeps py e vote x (some b) p s = record {
  transcript = refl;
  seen = refl;
  commitment = refl;
  committed = refl;
  logs = inr (_, refl, refl, refl);
}

set_ballot-Keeps :
    (py : StrMethods) (e : Envelope) (vote : String) (p : Projection Quorum) (x : BallotPayload)
    → Keeps e p (set_ballot py e vote x p)
unfolding set_ballot
set_ballot-Keeps py e vote p x = elim (Bool-cases (Dict.has x.request_id p.state.requests)) [
  | inl y ↦ rw y (cast_ballot-Keeps py e vote x _ p _)
  | inr n ↦ rw n (Keeps-refl e p)
]

-- Every Quorum message leaves the base class's fields to the base class, changes nothing at all if
-- its payload does not parse, and neither enters nor leaves the phase "Committed".
pub quorum_projection-IsLawful :
    (py : StrMethods) (parse : QuorumParsers) (e : Envelope) (p : Projection Quorum)
    → Obeys e p (apply_mode_message py parse e p)
unfolding apply_mode_message on_request
quorum_projection-IsLawful py parse e p =
    Obeys-when_type e _ p _ _
      (Obeys-with_payload e _ (on_request e) p
        (λ x. Keeps-set_phase e "Voting" p _ refl (Keeps-state e p _)))
      (Obeys-when_type e _ p _ _
        (Obeys-with_payload e _ (set_ballot py e "approve") p (set_ballot-Keeps py e "approve" p))
        (Obeys-when_type e _ p _ _
          (Obeys-with_payload e _ (set_ballot py e "reject") p (set_ballot-Keeps py e "reject" p))
          (Obeys-when_type e _ p _ _
            (Obeys-with_payload e _ (set_ballot py e "abstain") p
              (set_ballot-Keeps py e "abstain" p))
            (Obeys-returned e p p (Keeps-refl e p)))))
