-- ===== src/Proposal/Status.antt =====
-- The statuses of proposals, and terminal rejections.
use macp_sdk_python.Dict
use macp_sdk_python.Dict.{Dict, get, get-modify, get-set}
use macp_sdk_python.Envelope.{Envelope}
use macp_sdk_python.Prelude.{
  Bool-cases, List, Option, String, [], contains, inl, inr, none, refl, some, true, ◌==◌, ◌∷◌, ◌≡◌,
}
use macp_sdk_python.Projection.Replay.{feed_state_induction}
use macp_sdk_python.Proposal.{
  Negotiation, ProposalParsers, ProposalRecord, mark, negotiation_after, proposal_projection,
  with_status,
}
use macp_sdk_python.Proposal.Lawful.{proposal_projection-IsLawful}
use macp_sdk_python.Proposal.Steps.{
  Step, accepted, apply_mode_message-Step, ended, opened, rejected, same, withdrawn,
}

abbrev pub statuses : List String
statuses = "open" ∷ "rejected" ∷ "withdrawn" ∷ []

abbrev Fits : Option ProposalRecord → Type 0
Fits none = Unit
Fits (some r) = contains r.status statuses ≡ true

pub record StatusesFit (s : Negotiation) : Type 0 where
  pub fits : (pid : String) → Fits (Dict.get pid s.proposals)

Fits-mark :
    (s : Negotiation) (k status pid : String)
    → contains status statuses ≡ true
    → StatusesFit s
    → Fits (Dict.get pid (mark k status s).proposals)
Fits-mark s k status pid known h = rw Dict.get-modify (elim (Bool-cases (k == pid)) [
  | inr n ↦ rw n (h.fits pid)
  | inl y ↦ rw y (marked (Dict.get pid s.proposals))
])
  where
    marked :
        (o : Option ProposalRecord)
        → Fits (elim o [ none ↦ none | some r ↦ some (with_status status r) ])
    marked none = tt
    marked (some r) = known

Step-StatusesFit : {e : Envelope} {s t : Negotiation} → Step e s t → StatusesFit s → StatusesFit t
Step-StatusesFit (same r) h = rw r h
Step-StatusesFit {s} (opened q st r) h = rw r (record {
  fits = λ pid. rw Dict.get-set (elim (Bool-cases (q.proposal_id == pid)) [
    | inl y ↦ rw y (rw st refl)
    | inr n ↦ rw n (h.fits pid)
  ]);
})
Step-StatusesFit (accepted _ _ r) h = rw r (record { fits = h.fits })
Step-StatusesFit (rejected _ r) h = rw r (record { fits = h.fits })
Step-StatusesFit {s} (ended x _ r) h =
    rw r (record { fits = λ pid. Fits-mark s x.proposal_id "rejected" pid refl h })
Step-StatusesFit {s} (withdrawn k r) h =
    rw r (record { fits = λ pid. Fits-mark s k "withdrawn" pid refl h })

-- After any sequence of envelopes every proposal is open, rejected or withdrawn: an Accept never
-- shows in a proposal's status.
pub feed-StatusesFit :
    (parse : ProposalParsers) (es : List Envelope) → StatusesFit (negotiation_after parse es)
unfolding Dict.get
feed-StatusesFit parse es =
    feed_state_induction (proposal_projection parse) (proposal_projection-IsLawful parse)
      StatusesFit (λ e q h. Step-StatusesFit (apply_mode_message-Step e q parse).step h) es _
      (record { fits = λ pid. tt })
