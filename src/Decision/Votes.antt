-- ===== src/Decision/Votes.antt =====
-- Votes: the first vote of a sender on a proposal stands, and every vote has its place.
use macp_sdk_python.Dict
use macp_sdk_python.Decision.{
  Decision, DecisionParsers, DecisionVoteRecord, VotePayload, add_vote, decision_after,
  decision_projection, duplicate_vote, find_vote, get_dict, on_vote, vote_of,
}
use macp_sdk_python.Decision.Lawful.{decision_projection-IsLawful}
use macp_sdk_python.Decision.Steps.{
  Step, apply_mode_message-Step, evaluated, objected, proposed, same, voted,
}
use macp_sdk_python.Dict.{Dict, get, get-set, has, set}
use macp_sdk_python.Envelope.{Envelope, StrMethods}
use macp_sdk_python.Prelude.{
  List, String, [], arith, eq_iff, if◌then◌else◌, none, some, true, ◌&&◌, ◌++◌, ◌==◌, ◌∷◌, ◌≡◌,
}
use macp_sdk_python.Projection.{Projection, feed, record_anomaly, set_phase}
use macp_sdk_python.Projection.Replay.{feed_state_induction}

find_vote-add_vote :
    (pid sender : String) (v : DecisionVoteRecord) (s : Decision)
    → find_vote pid sender (add_vote v s)
      ≡ (if v.proposal_id == pid && v.sender == sender then some v else find_vote pid sender s)
find_vote-add_vote pid sender v s = ground (
  arith,
  Dict.get-set v.proposal_id pid (Dict.set v.sender v (get_dict v.proposal_id s.votes)) s.votes,
  Dict.get-set v.sender sender v (get_dict v.proposal_id s.votes),
  eq_iff v.proposal_id pid,
  eq_iff v.sender sender,
)

module _ (pid sender : String) (v : DecisionVoteRecord) where
  abbrev Stands : Decision → Type 0
  Stands s = find_vote pid sender s ≡ some v

  Step-Stands : {e : Envelope} {s t : Decision} → Step e s t → Stands s → Stands t
  Step-Stands (same r) h = rw r h
  Step-Stands (proposed _ _ r) h = rw r h
  Step-Stands (evaluated _ r) h = rw r h
  Step-Stands (objected _ r) h = rw r h
  Step-Stands {e} {s} {t} (voted w known fresh _ r) h = rw r (
      rw find_vote-add_vote
        (ground (arith, h, fresh, eq_iff w.proposal_id pid, eq_iff w.sender sender)))

-- First wins (RFC-MACP-0007 §5.3): once a sender has a vote on a proposal, no later envelope of any
-- kind replaces or removes it.
pub feed-find_vote :
    (py : StrMethods) (parse : DecisionParsers) (es : List Envelope) (p : Projection Decision)
    (pid sender : String) (v : DecisionVoteRecord)
    → find_vote pid sender p.state ≡ some v
    → find_vote pid sender (feed (decision_projection py parse) es p).state ≡ some v
feed-find_vote py parse es p pid sender v h =
    feed_state_induction (decision_projection py parse) (decision_projection-IsLawful py parse)
      (Stands pid sender v)
      (λ e q s. Step-Stands pid sender v (apply_mode_message-Step e q py parse).step s) es p h

-- Each vote stands under its own proposal and sender, and the proposal is known.
pub record VotesFit (s : Decision) : Type 0 where
  pub fits :
      (pid sender : String) (v : DecisionVoteRecord)
      → find_vote pid sender s ≡ some v
      → (v.proposal_id ≡ pid) × (v.sender ≡ sender) × (Dict.has pid s.proposals ≡ true)

has-set :
    {V : Type 0} (k j : String) (v : V) (d : Dict.Dict V)
    → Dict.has j d ≡ true
    → Dict.has j (Dict.set k v d) ≡ true
has-set k j v d h = ground (arith, Dict.get-set k j v d)

Step-VotesFit : {e : Envelope} {s t : Decision} → Step e s t → VotesFit s → VotesFit t
Step-VotesFit (same r) h = rw r h
Step-VotesFit {s} (proposed k d r) h = rw r (record {
  fits = λ pid sender v f.
      let (a, b, c) = h.fits pid sender v f in (a, b, has-set k pid d s.proposals c);
})
Step-VotesFit (evaluated _ r) h = rw r (record { fits = h.fits })
Step-VotesFit (objected _ r) h = rw r (record { fits = h.fits })
Step-VotesFit {s} (voted w known fresh _ r) h = rw r (record {
  fits = λ pid sender v f. ground (
    arith,
    find_vote-add_vote pid sender w s,
    f,
    known,
    h.fits pid sender v,
    eq_iff w.proposal_id pid,
    eq_iff w.sender sender,
  );
})

-- After any sequence of envelopes every recorded vote is filed under its own proposal id and sender,
-- and that proposal is one that the projection knows.
pub feed-VotesFit :
    (py : StrMethods) (parse : DecisionParsers) (es : List Envelope)
    → VotesFit (decision_after py parse es)
unfolding Dict.get
feed-VotesFit py parse es =
    feed_state_induction (decision_projection py parse) (decision_projection-IsLawful py parse)
      VotesFit (λ e q s. Step-VotesFit (apply_mode_message-Step e q py parse).step s) es _
      (record { fits = λ pid sender v f. cc })

-- The Vote branch on all of its cases: which votes there are afterwards, and the one anomaly that a
-- second vote on a known proposal adds.
pub on_vote-find_vote :
    (py : StrMethods) (e : Envelope) (x : VotePayload) (p : Projection Decision)
    (pid sender : String)
    → (find_vote pid sender (on_vote py e x p).state ≡ (
        if Dict.has x.proposal_id p.state.proposals && x.proposal_id == pid && e.sender == sender
        then some (elim (find_vote pid sender p.state) [ none ↦ vote_of e x | some old ↦ old ])
        else find_vote pid sender p.state))
      × ((on_vote py e x p).anomalies ≡ (
          if Dict.has x.proposal_id p.state.proposals
          then elim (find_vote x.proposal_id e.sender p.state) [
            | none ↦ p.anomalies
            | some old ↦ p.anomalies ++ duplicate_vote py e x old ∷ []
          ]
          else p.anomalies))
unfolding on_vote set_phase record_anomaly
on_vote-find_vote py e x p pid sender = ground (
  arith,
  find_vote-add_vote pid sender (vote_of e x) p.state,
  eq_iff x.proposal_id pid,
  eq_iff e.sender sender,
)
