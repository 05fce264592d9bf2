-- ===== src/Handoff/Queries.antt =====
-- The query helpers of `HandoffProjection`.
use macp_sdk_python.Dict
use macp_sdk_python.Dict.{Dict, get, values}
use macp_sdk_python.Handoff.{HandoffRecord, Handoffs, is_pending}
use macp_sdk_python.Prelude.{
  Bool, List, Option, String, [], any, contains, false, from_keys, if◌then◌else◌, map, none, not,
  select, some, ◌&&◌, ◌==◌, ◌∷◌,
}

abbrev pub has_status : String → Option HandoffRecord → Bool
has_status status o = elim o [ none ↦ false | some h ↦ h.status == status ]

unfoldable pub has_accepted_offer : Option String → Handoffs → Bool
has_accepted_offer none s = any (λ h. h.status == "accepted") (Dict.values s)
has_accepted_offer (some hid) s = has_status "accepted" (Dict.get hid s)

-- `for handoff in reversed(...): if pending: return handoff`
unfoldable pub last_pending : List HandoffRecord → Option HandoffRecord
last_pending [] = none
last_pending (h ∷ rest) =
    let later = last_pending rest in
    elim later [ some found ↦ some found | none ↦ if is_pending h then some h else none ]

abbrev pub active_offer : Handoffs → Option HandoffRecord
active_offer s = last_pending (Dict.values s)

abbrev pub is_accepted : String → Handoffs → Bool
is_accepted hid s = has_status "accepted" (Dict.get hid s)

abbrev pub is_declined : String → Handoffs → Bool
is_declined hid s = has_status "declined" (Dict.get hid s)

unfoldable pub is_implicitly_accepted : String → Handoffs → Bool
is_implicitly_accepted hid s = elim (Dict.get hid s) [
  | none ↦ false
  | some h ↦ h.status == "accepted" && h.implicit
]

abbrev pub get_handoff : String → Handoffs → Option HandoffRecord
get_handoff hid s = Dict.get hid s

abbrev pub pending_handoffs : Handoffs → List HandoffRecord
pending_handoffs s = select is_pending (Dict.values s)

unfoldable pub declined_targets : Handoffs → List String
declined_targets s =
    from_keys []
      (map (λ h. h.target_participant) (select (λ h. h.status == "declined") (Dict.values s)))

unfoldable pub can_offer_to : String → Handoffs → Bool
unfolding declined_targets
can_offer_to target s =
    if contains target (declined_targets s)
    then false
    else not (
        any (λ h. contains h.status ("offered" ∷ "context_sent" ∷ "accepted" ∷ [])) (Dict.values s))
