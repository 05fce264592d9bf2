-- ===== src/Proposal/Queries.antt =====
-- The query helpers of `ProposalProjection`.
use macp_sdk_python.Dict
use macp_sdk_python.Dict.{Dict, values}
use macp_sdk_python.Prelude.{
  Bool, List, Option, String, [], any, contains, from_keys, if◌then◌else◌, is_empty, none, not,
  select, some, ◌&&◌, ◌==◌, ◌∷◌,
}
use macp_sdk_python.Proposal.{Negotiation, ProposalRecord}

-- `{k: v for k, v in d.items() if test(v)}`
abbrev pub keep_values {ℓ} : {V : Type ℓ} → (V → Bool) → Dict.Dict V → Dict.Dict V
keep_values test [] = []
keep_values test ((k, v) ∷ d) =
    let rest = keep_values test d in if test v then (k, v) ∷ rest else rest

unfoldable pub live_proposals : Negotiation → Dict.Dict ProposalRecord
live_proposals s = keep_values (λ r. not (r.status == "withdrawn")) s.proposals

-- `ids.pop() if len(ids) == 1 else None`
abbrev pub the_only : List String → Option String
the_only [] = none
the_only (x ∷ []) = some x
the_only (x ∷ y ∷ rest) = none

unfoldable pub accepted_proposal : Negotiation → Option String
accepted_proposal s =
    if is_empty s.latest_accept_by_sender
    then none
    else the_only (from_keys [] (Dict.values s.latest_accept_by_sender))

unfoldable pub has_terminal_rejection : Negotiation → Bool
has_terminal_rejection s = any (λ r. r.terminal) s.rejections

abbrev pub active_proposals : Negotiation → List ProposalRecord
active_proposals s = select (λ r. r.status == "open") (Dict.values s.proposals)

unfoldable pub last_value : List ProposalRecord → Option ProposalRecord
last_value [] = none
last_value (r ∷ []) = some r
last_value (r ∷ q ∷ rest) = last_value (q ∷ rest)

abbrev pub latest_proposal : Negotiation → Option ProposalRecord
latest_proposal s = last_value (Dict.values s.proposals)

unfoldable pub is_accepted : String → Negotiation → Bool
is_accepted pid s = contains pid (Dict.values s.latest_accept_by_sender)

unfoldable pub is_terminally_rejected : String → Negotiation → Bool
is_terminally_rejected pid s = any (λ r. r.proposal_id == pid && r.terminal) s.rejections
