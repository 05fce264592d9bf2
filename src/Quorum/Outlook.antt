-- ===== src/Quorum/Outlook.antt =====
-- What `is_threshold_unreachable` promises about later states, and how the query helpers agree.
use macp_sdk_python.Dict
use macp_sdk_python.Dict.{Dict, has}
use macp_sdk_python.Envelope.{Envelope, StrMethods}
use macp_sdk_python.Prelude.{
  List, Option-cases, String, arith, false, inl, inr, length, refl, true, ℕ, ◌+◌, ◌↔◌, ◌∙◌, ◌≡◌,
  ◌≤◌,
}
use macp_sdk_python.Prelude.Int.{pos, ℤ, ◌+ℤ◌, ◌-ℤ◌, ◌≤ℤ◌}
use macp_sdk_python.Projection.{Projection, feed}
use macp_sdk_python.Projection.Replay.{feed_state_induction}
use macp_sdk_python.Quorum.{Quorum, QuorumParsers, quorum_projection}
use macp_sdk_python.Quorum.Ballots.{sender_map-with_sender_map_any}
use macp_sdk_python.Quorum.Lawful.{quorum_projection-IsLawful}
use macp_sdk_python.Quorum.Queries.{
  Bar, Threshold, approval_count, below, count_votes, finite, has_quorum, infinite,
  is_threshold_unreachable, reaches, remaining_votes_needed, required, shortfall, voted_senders,
}
use macp_sdk_python.Quorum.Reach.{count_votes-add_ballot, voted_count, voted_count-add_ballot}
use macp_sdk_python.Quorum.Steps.{Step, apply_mode_message-Step, kept, requested, same, voted}

-- From `s` to `t` no more approvals came than senders that voted.
abbrev Gains : String → Quorum → Quorum → Type 0
Gains rid s t = approval_count rid t + voted_count rid s ≤ approval_count rid s + voted_count rid t

module _ (rid : String) (s₀ : Quorum) where
  Step-Gains : {e : Envelope} {s t : Quorum} → Step e s t → Gains rid s₀ s → Gains rid s₀ t
  unfolding count_votes voted_senders
  Step-Gains (same r) h = rw r h
  Step-Gains (requested _ r) h = rw r h
  Step-Gains {s} (kept k r) h = rw r (rw (sender_map-with_sender_map_any k rid s) h)
  Step-Gains {s} (voted b known fresh v _ r) h = rw r (
      ground (
        arith,
        count_votes-add_ballot rid "approve" b s fresh,
        voted_count-add_ballot rid b s fresh,
      ))

below-reaches :
    (a v a' v' : ℕ) (total : ℤ) (bar : Bar)
    → below (pos a +ℤ (total -ℤ pos v)) bar ≡ true
    → a' + v ≤ a + v'
    → pos v' ≤ℤ total
    → reaches a' bar ≡ false
unfolding below reaches ◌+ℤ◌ ◌-ℤ◌
below-reaches a v a' v' total infinite h g b = refl
below-reaches a v a' v' total (finite n) h g b = ground arith

unreachable_stays :
    (rid : String) (total : ℤ) (th : Threshold) (s t : Quorum)
    → required rid th t ≡ required rid th s
    → is_threshold_unreachable rid total th s ≡ true
    → Gains rid s t
    → pos (length (voted_senders rid t)) ≤ℤ total
    → has_quorum rid th t ≡ false
unfolding is_threshold_unreachable has_quorum
unreachable_stays rid total th s t same_bar h g b = elim (Option-cases (required rid th s)) [
  | inl r ↦ rw (same_bar ∙ r, has_quorum)
  | inr (bar, r) ↦
      rw (same_bar ∙ r, has_quorum)
        (below-reaches (approval_count rid s) (length (voted_senders rid s)) _
          (length (voted_senders rid t)) total bar (rw (r, is_threshold_unreachable) at h) g b)
]

-- When `is_threshold_unreachable` answers true, no sequence of further envelopes leads to a quorum,
-- as long as no more senders vote than are eligible and the bar itself is the same.
pub feed-is_threshold_unreachable :
    (py : StrMethods) (parse : QuorumParsers) (es : List Envelope) (p : Projection Quorum)
    (rid : String) (total : ℤ) (th : Threshold)
    → is_threshold_unreachable rid total th p.state ≡ true
    → required rid th (feed (quorum_projection py parse) es p).state ≡ required rid th p.state
    → pos (length (voted_senders rid (feed (quorum_projection py parse) es p).state)) ≤ℤ total
    → has_quorum rid th (feed (quorum_projection py parse) es p).state ≡ false
feed-is_threshold_unreachable py parse es p rid total th h same_bar b =
    unreachable_stays rid total th p.state _ same_bar h
      (feed_state_induction (quorum_projection py parse) (quorum_projection-IsLawful py parse)
        (Gains rid p.state)
        (λ e q g. Step-Gains rid p.state (apply_mode_message-Step e q py parse).step g) es p
        (omega arith))
      b

-- No approvals are missing exactly if there is a quorum, for a request that is known.
pub remaining_votes_needed-has_quorum :
    (rid : String) (th : Threshold) (s : Quorum)
    → Dict.has rid s.requests ≡ true
    → (remaining_votes_needed rid th s ≡ finite (pos 0)) ↔ (has_quorum rid th s ≡ true)
unfolding remaining_votes_needed shortfall has_quorum reaches required ◌-ℤ◌
remaining_votes_needed-has_quorum rid th s h = (λ r. ground arith, λ r. ground arith)
