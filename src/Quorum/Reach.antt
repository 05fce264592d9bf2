-- ===== src/Quorum/Reach.antt =====
-- Counting ballots, and what `has_quorum`, `is_threshold_unreachable` and `remaining_votes_needed`
-- say about each other.
use macp_sdk_python.Dict
use macp_sdk_python.Dict.{Dict, get}
use macp_sdk_python.Dict.Keys.{count_if-values-set, length-keys-set}
use macp_sdk_python.Envelope.{Envelope, StrMethods}
use macp_sdk_python.Prelude.{
  List, String, arith, eq_iff, if◌then◌else◌, inl, inr, length, none, refl, ℕ, ◌&&◌, ◌+◌, ◌==◌, ◌≡◌,
}
use macp_sdk_python.Projection.Replay.{feed_state_induction}
use macp_sdk_python.Quorum.{
  BallotRecord, Quorum, QuorumParsers, add_ballot, find_ballot, quorum_after, quorum_projection,
  sender_map,
}
use macp_sdk_python.Quorum.Ballots.{sender_map-add_ballot, sender_map-with_sender_map_any}
use macp_sdk_python.Quorum.Lawful.{quorum_projection-IsLawful}
use macp_sdk_python.Quorum.Queries.{
  abstention_count, approval_count, count_votes, rejection_count, voted_senders,
}
use macp_sdk_python.Quorum.Steps.{
  IsVote, Step, apply_mode_message-Step, kept, requested, same, voted,
}

module _ (rid : String) where
  abbrev pub voted_count : Quorum → ℕ
  voted_count s = length (voted_senders rid s)

  pub count_votes-add_ballot :
      (vote : String) (b : BallotRecord) (s : Quorum)
      → find_ballot b.request_id b.sender s ≡ none
      → count_votes rid vote (add_ballot b s)
        ≡ count_votes rid vote s + (if b.request_id == rid && b.vote == vote then 1 else 0)
  unfolding count_votes
  count_votes-add_ballot vote b s fresh = rw (sender_map-add_ballot b rid s) (
      ground (
        arith,
        fresh,
        eq_iff b.request_id rid,
        count_if-values-set (λ (x : BallotRecord). x.vote == vote) b.sender b (sender_map rid s),
      ))

  pub voted_count-add_ballot :
      (b : BallotRecord) (s : Quorum)
      → find_ballot b.request_id b.sender s ≡ none
      → voted_count (add_ballot b s) ≡ voted_count s + (if b.request_id == rid then 1 else 0)
  unfolding voted_senders
  voted_count-add_ballot b s fresh = rw (sender_map-add_ballot b rid s) (
      ground (arith, fresh, eq_iff b.request_id rid, length-keys-set b.sender b (sender_map rid s)))

  -- Every sender that voted has one approval, one rejection or one abstention.
  abbrev Partition : Quorum → Type 0
  Partition s =
      approval_count rid s + rejection_count rid s + abstention_count rid s ≡ voted_count s

  ballot_counts_once :
      (vote : String)
      → IsVote vote
      → (if vote == "approve" then 1 else 0)
          + (if vote == "reject" then 1 else 0)
          + (if vote == "abstain" then 1 else 0)
        ≡ ◌+◌ 1 0
  ballot_counts_once vote (inl r) = rw r
  ballot_counts_once vote (inr (inl r)) = rw r
  ballot_counts_once vote (inr (inr r)) = rw r

  Step-Partition : {e : Envelope} {s t : Quorum} → Step e s t → Partition s → Partition t
  unfolding count_votes voted_senders
  Step-Partition (same r) h = rw r h
  Step-Partition (requested _ r) h = rw r h
  Step-Partition {s} (kept k r) h = rw r (rw (sender_map-with_sender_map_any k rid s) h)
  Step-Partition {s} (voted b known fresh v _ r) h = rw r (
      ground (
        arith,
        count_votes-add_ballot "approve" b s fresh,
        count_votes-add_ballot "reject" b s fresh,
        count_votes-add_ballot "abstain" b s fresh,
        voted_count-add_ballot b s fresh,
        ballot_counts_once b.vote v,
      ))

-- After any sequence of envelopes the approvals, rejections and abstentions of a request add up to
-- the number of senders that voted on it.
pub feed-Partition :
    (py : StrMethods) (parse : QuorumParsers) (es : List Envelope) (rid : String)
    → let s = quorum_after py parse es in
      approval_count rid s + rejection_count rid s + abstention_count rid s
      ≡ length (voted_senders rid s)
unfolding count_votes voted_senders Dict.get
feed-Partition py parse es rid =
    feed_state_induction (quorum_projection py parse) (quorum_projection-IsLawful py parse)
      (Partition rid) (λ e q h. Step-Partition rid (apply_mode_message-Step e q py parse).step h) es
      _ refl
