-- ===== src/Modes.antt =====
-- The six projection classes of src/macp_sdk, as instances of the base class of base_projection.py.
use macp_sdk_python.Decision.{Decision, DecisionParsers, decision_projection}
use macp_sdk_python.Decision.Lawful.{decision_projection-IsLawful}
use macp_sdk_python.Envelope.{Bytes, Envelope, StrMethods}
use macp_sdk_python.Handoff.{HandoffParsers, Handoffs, handoff_projection}
use macp_sdk_python.Handoff.Lawful.{handoff_projection-IsLawful}
use macp_sdk_python.MultiRound.{MultiRound, MultiRoundParsers, multi_round_projection}
use macp_sdk_python.MultiRound.Lawful.{multi_round_projection-IsLawful}
use macp_sdk_python.Prelude.{List, Option, String, ◌≡◌}
use macp_sdk_python.Projection.{Projection, ProjectionClass, feed}
use macp_sdk_python.Projection.Contract.{IsLawful}
use macp_sdk_python.Projection.Terminal.{feed-InCommitted}
use macp_sdk_python.Proposal.{Negotiation, ProposalParsers, proposal_projection}
use macp_sdk_python.Proposal.Lawful.{proposal_projection-IsLawful}
use macp_sdk_python.Quorum.{Quorum, QuorumParsers, quorum_projection}
use macp_sdk_python.Quorum.Lawful.{quorum_projection-IsLawful}
use macp_sdk_python.Task.{task_projection}
use macp_sdk_python.Task.Lawful.{task_projection-IsLawful}
use macp_sdk_python.Task.Records.{TaskFields, TaskParsers}
use macp_sdk_python.Text.{Text}

-- A projection class of the library, with the parsers and the other parameters that it is built with.
pub data IsMode : (S : Type 0) → ProjectionClass S → Type 1 where
  decision_mode :
      (py : StrMethods) (parse : DecisionParsers) → IsMode Decision (decision_projection py parse)
  quorum_mode :
      (py : StrMethods) (parse : QuorumParsers) → IsMode Quorum (quorum_projection py parse)
  task_mode : (py : StrMethods) (parse : TaskParsers) → IsMode TaskFields (task_projection py parse)
  handoff_mode :
      (py : StrMethods) (parse : HandoffParsers) → IsMode Handoffs (handoff_projection py parse)
  proposal_mode : (parse : ProposalParsers) → IsMode Negotiation (proposal_projection parse)
  multi_round_mode :
      (decode : Bytes → Option Text) (encode : Text → Bytes) (parse : MultiRoundParsers)
      (seed_participants : List String) (seed_initiator : Option String)
      → IsMode MultiRound
          (multi_round_projection decode encode parse seed_participants seed_initiator)

IsMode-IsLawful : {S : Type 0} {cls : ProjectionClass S} → IsMode S cls → IsLawful cls
IsMode-IsLawful (decision_mode py parse) = decision_projection-IsLawful py parse
IsMode-IsLawful (quorum_mode py parse) = quorum_projection-IsLawful py parse
IsMode-IsLawful (task_mode py parse) = task_projection-IsLawful py parse
IsMode-IsLawful (handoff_mode py parse) = handoff_projection-IsLawful py parse
IsMode-IsLawful (proposal_mode parse) = proposal_projection-IsLawful parse
IsMode-IsLawful (multi_round_mode decode encode parse seed_participants seed_initiator) =
    multi_round_projection-IsLawful decode encode parse

-- In each of the six modes the phase "Committed" is final: no later envelopes, whatever they are and
-- whether they raise or not, move the projection out of it.
pub feed-Committed :
    {S : Type 0} (cls : ProjectionClass S) (es : List Envelope) (p : Projection S)
    → IsMode S cls
    → p.phase ≡ "Committed"
    → (feed cls es p).phase ≡ "Committed"
feed-Committed cls es p mode h = feed-InCommitted cls (IsMode-IsLawful mode) es p h
