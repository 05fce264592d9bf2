-- ===== src/Quorum/Queries.antt =====
-- The query helpers of `QuorumProjection`.
use macp_sdk_python.Dict
use macp_sdk_python.Dict.{Dict, get, keys, values}
use macp_sdk_python.Prelude.{
  Bool, List, Option, String, count_if, false, if◌then◌else◌, length, none, not, some, true, ℕ,
  ◌&&◌, ◌==◌,
}
use macp_sdk_python.Prelude.Int.{ltb_ℤ, pos, ℤ, ◌+ℤ◌, ◌-ℤ◌}
use macp_sdk_python.Projection.{Projection}
use macp_sdk_python.Quorum.{Quorum, sender_map}

-- `int | _Unset | None`
pub data Threshold : Type 0 where
  unset unsatisfiable : Threshold
  override : ℤ → Threshold

-- An `int`, or `math.inf`
pub data Bar : Type 0 where
  finite : ℤ → Bar
  infinite : Bar

unfoldable pub count_votes : String → String → Quorum → ℕ
count_votes rid vote s = count_if (λ b. b.vote == vote) (Dict.values (sender_map rid s))

abbrev pub approval_count : String → Quorum → ℕ
approval_count rid = count_votes rid "approve"

abbrev pub rejection_count : String → Quorum → ℕ
rejection_count rid = count_votes rid "reject"

abbrev pub abstention_count : String → Quorum → ℕ
abstention_count rid = count_votes rid "abstain"

unfoldable pub voted_senders : String → Quorum → List String
voted_senders rid s = Dict.keys (sender_map rid s)

-- `_required`
unfoldable pub required : String → Threshold → Quorum → Option Bar
required rid th s = elim (Dict.get rid s.requests) [
  | none ↦ none
  | some req ↦ some (elim th [
    | unset ↦ finite (pos req.required_approvals)
    | unsatisfiable ↦ infinite
    | override n ↦ finite n
  ])
]

-- `count >= bar`
unfoldable pub reaches : ℕ → Bar → Bool
reaches count infinite = false
reaches count (finite n) = not (ltb_ℤ (pos count) n)

unfoldable pub has_quorum : String → Threshold → Quorum → Bool
unfolding reaches
has_quorum rid th s = elim (required rid th s) [
  | none ↦ false
  | some bar ↦ reaches (approval_count rid s) bar
]

-- `n < bar`
unfoldable pub below : ℤ → Bar → Bool
below n infinite = true
below n (finite m) = ltb_ℤ n m

unfoldable pub is_threshold_unreachable : String → ℤ → Threshold → Quorum → Bool
unfolding below
is_threshold_unreachable rid total_eligible th s = elim (required rid th s) [
  | none ↦ false
  | some bar ↦
      let remaining = total_eligible -ℤ pos (length (voted_senders rid s)) in
      below (pos (approval_count rid s) +ℤ remaining) bar
]

unfoldable pub commitment_ready : String → Threshold → Projection Quorum → Bool
unfolding has_quorum
commitment_ready rid th p = has_quorum rid th p.state && not (p.phase == "Committed")

unfoldable pub threshold : String → Threshold → Quorum → Bar
threshold rid th s = elim (required rid th s) [ none ↦ finite (pos 0) | some bar ↦ bar ]

-- `max(0, bar - count)`
unfoldable pub shortfall : ℕ → Bar → Bar
shortfall count infinite = infinite
shortfall count (finite n) =
    let missing = n -ℤ pos count in finite (if ltb_ℤ (pos 0) missing then missing else pos 0)

unfoldable pub remaining_votes_needed : String → Threshold → Quorum → Bar
unfolding shortfall
remaining_votes_needed rid th s = elim (required rid th s) [
  | none ↦ finite (pos 0)
  | some bar ↦ shortfall (approval_count rid s) bar
]
