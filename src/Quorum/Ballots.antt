-- ===== src/Quorum/Ballots.antt =====
-- Ballots: the first ballot of a sender stands, and each ballot has its place.
use macp_sdk_python.Dict
use macp_sdk_python.Dict.{Dict, get-set, set}
use macp_sdk_python.Envelope.{Envelope, StrMethods}
use macp_sdk_python.Prelude.{List, String, [], arith, eq_iff, if◌then◌else◌, some, ◌&&◌, ◌==◌, ◌≡◌}
use macp_sdk_python.Projection.{Projection, feed}
use macp_sdk_python.Projection.Replay.{feed_state_induction}
use macp_sdk_python.Quorum.{
  BallotRecord, Quorum, QuorumParsers, add_ballot, find_ballot, quorum_projection, sender_map,
  with_sender_map,
}
use macp_sdk_python.Quorum.Lawful.{quorum_projection-IsLawful}
use macp_sdk_python.Quorum.Steps.{Step, apply_mode_message-Step, kept, requested, same, voted}

pub sender_map-with_sender_map_any :
    (k rid : String) (s : Quorum) → sender_map rid (with_sender_map k s) ≡ sender_map rid s
sender_map-with_sender_map_any k rid s =
    ground (arith, Dict.get-set k rid [] s.ballots, eq_iff k rid)

pub sender_map-add_ballot :
    (b : BallotRecord) (rid : String) (s : Quorum)
    → sender_map rid (add_ballot b s)
      ≡ (if b.request_id == rid then Dict.set b.sender b (sender_map rid s) else sender_map rid s)
sender_map-add_ballot b rid s = ground (
  arith,
  Dict.get-set b.request_id rid (Dict.set b.sender b (sender_map b.request_id s)) s.ballots,
  eq_iff b.request_id rid,
)

pub find_ballot-add_ballot :
    (b : BallotRecord) (rid sender : String) (s : Quorum)
    → find_ballot rid sender (add_ballot b s)
      ≡ (if b.request_id == rid && b.sender == sender then some b else find_ballot rid sender s)
find_ballot-add_ballot b rid sender s = ground (
  arith,
  sender_map-add_ballot b rid s,
  Dict.get-set b.sender sender b (sender_map rid s),
  eq_iff b.sender sender,
)

module _ (rid sender : String) (v : BallotRecord) where
  abbrev Stands : Quorum → Type 0
  Stands s = find_ballot rid sender s ≡ some v

  Step-Stands : {e : Envelope} {s t : Quorum} → Step e s t → Stands s → Stands t
  Step-Stands (same r) h = rw r h
  Step-Stands (requested _ r) h = rw r h
  Step-Stands {s} (kept k r) h = rw r (rw (sender_map-with_sender_map_any k rid s) h)
  Step-Stands {s} (voted b known fresh _ _ r) h = rw r (
      rw (find_ballot-add_ballot b rid sender s)
        (ground (arith, h, fresh, eq_iff b.request_id rid, eq_iff b.sender sender)))

-- At most one ballot of a sender across Approve, Reject and Abstain (RFC-MACP-0011 §5 rule 3): the
-- first one stands, whatever envelopes follow.
pub feed-find_ballot :
    (py : StrMethods) (parse : QuorumParsers) (es : List Envelope) (p : Projection Quorum)
    (rid sender : String) (v : BallotRecord)
    → find_ballot rid sender p.state ≡ some v
    → find_ballot rid sender (feed (quorum_projection py parse) es p).state ≡ some v
feed-find_ballot py parse es p rid sender v h =
    feed_state_induction (quorum_projection py parse) (quorum_projection-IsLawful py parse)
      (Stands rid sender v)
      (λ e q s. Step-Stands rid sender v (apply_mode_message-Step e q py parse).step s) es p h
