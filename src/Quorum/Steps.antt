-- ===== src/Quorum/Steps.antt =====
-- What a Quorum message can do to the fields of `QuorumProjection`, as a step relation.
use macp_sdk_python.Dict
use macp_sdk_python.Dict.{Dict, get-set, has, set, set-set}
use macp_sdk_python.Envelope.{Envelope, StrMethods}
use macp_sdk_python.Prelude.{
  Bool-cases, Option-cases, String, [], arith, eq_refl, inl, inr, none, refl, true, ◌≡◌, ◌⊎◌,
}
use macp_sdk_python.Projection.{Projection, record_anomaly}
use macp_sdk_python.Projection.Contract.{
  Moves, Moves-returned, Moves-when_type, Moves-with_payload, state-set_phase,
}
use macp_sdk_python.Quorum.{
  ApprovalRequestPayload, ApprovalRequestRecord, BallotPayload, BallotRecord, Quorum, QuorumParsers,
  add_ballot, apply_mode_message, find_ballot, on_request, request_of, sender_map, set_ballot,
  with_sender_map,
}

abbrev pub IsVote : String → Type 0
IsVote vote = (vote ≡ "approve") ⊎ (vote ≡ "reject") ⊎ (vote ≡ "abstain")

pub data Step (e : Envelope) (s t : Quorum) : Type 0 where
  same : t ≡ s → Step e s t
  requested :
      (r : ApprovalRequestRecord)
      → t ≡ record s { requests = Dict.set r.request_id r s.requests }
      → Step e s t
  -- A ballot was discarded.
  kept : (request_id : String) → t ≡ with_sender_map request_id s → Step e s t
  voted :
      (b : BallotRecord)
      → Dict.has b.request_id s.requests ≡ true
      → find_ballot b.request_id b.sender s ≡ none
      → IsVote b.vote
      → b.sender ≡ e.sender
      → t ≡ add_ballot b s
      → Step e s t

-- `setdefault` before the write changes nothing of what the write leaves.
sender_map-with_sender_map :
    (k : String) (s : Quorum) → sender_map k (with_sender_map k s) ≡ sender_map k s
sender_map-with_sender_map k s = ground (arith, Dict.get-set k k [] s.ballots, eq_refl k)

add_ballot-with_sender_map :
    (b : BallotRecord) (s : Quorum) → add_ballot b (with_sender_map b.request_id s) ≡ add_ballot b s
add_ballot-with_sender_map b s = ground (
  arith,
  sender_map-with_sender_map b.request_id s,
  Dict.set-set b.request_id (Dict.set b.sender b (sender_map b.request_id s)) [] s.ballots,
)

module _ (e : Envelope) (p : Projection Quorum) where
  on_request-Step : (x : ApprovalRequestPayload) → Step e p.state (on_request e x p).state
  unfolding on_request
  on_request-Step x = requested (request_of e x) (state-set_phase "Voting" _)

  set_ballot-Step :
      (py : StrMethods) (vote : String)
      → IsVote vote
      → (x : BallotPayload) → Step e p.state (set_ballot py e vote x p).state
  unfolding set_ballot record_anomaly
  set_ballot-Step py vote v x = elim (Bool-cases (Dict.has x.request_id p.state.requests)) [
    | inr n ↦ same (rw n)
    | inl y ↦ elim (Option-cases (find_ballot x.request_id e.sender p.state)) [
      | inl fresh ↦
          voted
            (record {
              request_id = x.request_id;
              vote = vote;
              reason = x.reason;
              sender = e.sender;
            })
            y fresh v refl (rw y (rw fresh (add_ballot-with_sender_map _ p.state)))
      | inr (b, old) ↦ kept x.request_id (rw y (rw old))
    ]
  ]

  pub apply_mode_message-Step :
      (py : StrMethods) (parse : QuorumParsers) → Moves (Step e) p (apply_mode_message py parse e p)
  unfolding apply_mode_message
  apply_mode_message-Step py parse =
      let stay : Step e p.state p.state = same refl in
      Moves-when_type (Step e) p e _ _ _
        (Moves-with_payload (Step e) p _ (on_request e) stay on_request-Step)
        (Moves-when_type (Step e) p e _ _ _
          (Moves-with_payload (Step e) p _ (set_ballot py e "approve") stay
            (set_ballot-Step py "approve" (inl refl)))
          (Moves-when_type (Step e) p e _ _ _
            (Moves-with_payload (Step e) p _ (set_ballot py e "reject") stay
              (set_ballot-Step py "reject" (inr (inl refl))))
            (Moves-when_type (Step e) p e _ _ _
              (Moves-with_payload (Step e) p _ (set_ballot py e "abstain") stay
                (set_ballot-Step py "abstain" (inr (inr refl))))
              (Moves-returned (Step e) p stay))))
