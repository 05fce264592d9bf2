-- ===== src/Decision.antt =====
-- src/macp_sdk/projections.py: `DecisionProjection`, its records, its handler and its queries.
-- A float is a bit pattern, which the program only copies.
pub mod Lawful
pub mod Steps
pub mod Votes
pub mod Ratios
pub mod Tally
pub mod Majority
use macp_sdk_python.Dict
use macp_sdk_python.Dict.{Dict, get, has, set}
use macp_sdk_python.Envelope.{Bytes, CommitmentPayload, Envelope, StrMethods}
use macp_sdk_python.Prelude.{
  List, Option, String, [], concat, if◌then◌else◌, none, or_else, some, ℕ, ◌++◌, ◌==◌, ◌∷◌,
}
use macp_sdk_python.Projection.{
  Projection, ProjectionAnomaly, ProjectionClass, Ran, feed, init, record_anomaly, returned,
  set_phase, when_type, with_payload,
}

pub record ProposalPayload : Type 0 where
  pub proposal_id : String
  pub option : String
  pub rationale : String

pub record EvaluationPayload : Type 0 where
  pub proposal_id : String
  pub recommendation : String
  pub confidence : ℕ
  pub reason : String

pub record ObjectionPayload : Type 0 where
  pub proposal_id : String
  pub reason : String
  pub severity : String

pub record VotePayload : Type 0 where
  pub proposal_id : String
  pub vote : String
  pub reason : String

-- The generated parsers; `none` is a `DecodeError`.
pub record DecisionParsers : Type 0 where
  pub commitment : Bytes → Option CommitmentPayload
  pub proposal : Bytes → Option ProposalPayload
  pub evaluation : Bytes → Option EvaluationPayload
  pub objection : Bytes → Option ObjectionPayload
  pub vote : Bytes → Option VotePayload

pub record DecisionProposalRecord : Type 0 where
  pub proposal_id : String
  pub option : String
  pub rationale : String
  pub sender : String

pub record DecisionEvaluationRecord : Type 0 where
  pub proposal_id : String
  pub recommendation : String
  pub confidence : ℕ
  pub reason : String
  pub sender : String

pub record DecisionObjectionRecord : Type 0 where
  pub proposal_id : String
  pub reason : String
  pub severity : String
  pub sender : String

pub record DecisionVoteRecord : Type 0 where
  pub proposal_id : String
  pub vote : String
  pub reason : String
  pub sender : String

-- The fields that `DecisionProjection.__init__` adds.
pub record Decision : Type 0 where
  pub proposals : Dict DecisionProposalRecord
  pub evaluations : List DecisionEvaluationRecord
  pub objections : List DecisionObjectionRecord
  pub votes : Dict (Dict DecisionVoteRecord)

abbrev pub proposal_of : Envelope → ProposalPayload → DecisionProposalRecord
proposal_of e payload = record {
  proposal_id = payload.proposal_id;
  option = payload.option;
  rationale = payload.rationale;
  sender = e.sender;
}

unfoldable pub on_proposal : Envelope → ProposalPayload → Projection Decision → Projection Decision
on_proposal e payload p =
    let q = record p {
      state = record p.state {
        proposals = Dict.set payload.proposal_id (proposal_of e payload) p.state.proposals;
      };
    } in
    if p.phase == "Proposal" then set_phase "Evaluation" q else q

unfoldable pub on_evaluation :
    Envelope → EvaluationPayload → Projection Decision → Projection Decision
on_evaluation e payload p = set_phase "Evaluation" (record p {
  state = record p.state {
    evaluations =
        p.state.evaluations
        ++ record {
          proposal_id = payload.proposal_id;
          recommendation = payload.recommendation;
          confidence = payload.confidence;
          reason = payload.reason;
          sender = e.sender;
        }
          ∷ [];
  };
})

unfoldable pub on_objection :
    Envelope → ObjectionPayload → Projection Decision → Projection Decision
on_objection e payload p = record p {
  state = record p.state {
    objections =
        p.state.objections
        ++ record {
          proposal_id = payload.proposal_id;
          reason = payload.reason;
          severity = or_else payload.severity "medium";
          sender = e.sender;
        }
          ∷ [];
  };
}

-- `d.get(k, {})`
abbrev pub get_dict {ℓ} : {V : Type ℓ} → String → Dict (Dict V) → Dict V
get_dict k d = elim (Dict.get k d) [ none ↦ [] | some inner ↦ inner ]

abbrev pub find_vote : String → String → Decision → Option DecisionVoteRecord
find_vote proposal_id sender s = Dict.get sender (get_dict proposal_id s.votes)

abbrev pub vote_of : Envelope → VotePayload → DecisionVoteRecord
vote_of e payload = record {
  proposal_id = payload.proposal_id;
  vote = payload.vote;
  reason = payload.reason;
  sender = e.sender;
}

abbrev pub add_vote : DecisionVoteRecord → Decision → Decision
add_vote v s = record s {
  votes = Dict.set v.proposal_id (Dict.set v.sender v (get_dict v.proposal_id s.votes)) s.votes;
}

module _ (py : StrMethods) where
  unfoldable pub duplicate_vote : Envelope → VotePayload → DecisionVoteRecord → ProjectionAnomaly
  duplicate_vote e payload existing = record {
    kind = "duplicate_vote";
    mode = "macp.mode.decision.v1";
    message_type = e.message_type;
    message_id = e.message_id;
    sender = e.sender;
    subject_id = payload.proposal_id;
    detail =
        concat
          ("kept first vote " ∷ py.repr existing.vote ∷ "; discarded " ∷ py.repr payload.vote ∷ []);
  }

  -- The rest of the Vote branch, by the vote that the sender has on the proposal.
  unfoldable pub cast_vote :
      Envelope → VotePayload → Option DecisionVoteRecord → Projection Decision → Projection Decision
  unfolding duplicate_vote
  cast_vote e payload (some existing) p = record_anomaly (duplicate_vote e payload existing) p
  cast_vote e payload none p =
      set_phase "Voting" (record p { state = add_vote (vote_of e payload) p.state })

  unfoldable pub on_vote : Envelope → VotePayload → Projection Decision → Projection Decision
  unfolding cast_vote
  on_vote e payload p =
      if Dict.has payload.proposal_id p.state.proposals
      then cast_vote e payload (find_vote payload.proposal_id e.sender p.state) p
      else p

module _ (py : StrMethods) (parse : DecisionParsers) where
  unfoldable pub apply_mode_message : Envelope → Projection Decision → Ran Decision
  apply_mode_message e p =
      when_type e "Proposal" (with_payload (parse.proposal e.payload) (on_proposal e) p) (
        when_type e "Evaluation" (with_payload (parse.evaluation e.payload) (on_evaluation e) p) (
          when_type e "Objection" (with_payload (parse.objection e.payload) (on_objection e) p) (
            when_type e "Vote" (with_payload (parse.vote e.payload) (on_vote py e) p)
              ((returned, p)))))

  abbrev pub decision_projection : ProjectionClass Decision
  decision_projection = record {
    mode = "macp.mode.decision.v1";
    initial_phase = "Proposal";
    initial_state = record { proposals = []; evaluations = []; objections = []; votes = [] };
    parse_commitment = parse.commitment;
    apply_mode_message = apply_mode_message;
  }

-- The fields of the mode after a sequence of envelopes was fed to a fresh projection
abbrev pub decision_after : StrMethods → DecisionParsers → List Envelope → Decision
decision_after py parse es =
    (feed (decision_projection py parse) es (init (decision_projection py parse))).state
