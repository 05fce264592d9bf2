-- ===== src/MultiRound.antt =====
-- src/macp_sdk/multi_round.py: `MultiRoundProjection`, its handler and its test of convergence.
pub mod Lawful
pub mod Steps
pub mod Consensus
pub mod Rounds
pub mod Agreed
pub mod Actions
pub mod Sent
pub mod Recorded
pub mod Holders
pub mod Progress
use macp_sdk_python.Dict
use macp_sdk_python.Contribute.Decision.{contribute_value, same_text}
use macp_sdk_python.Dict.{Dict, get, has, set}
use macp_sdk_python.Envelope.{Bytes, CommitmentPayload, Envelope}
use macp_sdk_python.Prelude.{
  Bool, List, Option, String, [], any, contains, false, if◌then◌else◌, is_empty, none, not, some,
  true, ℕ, ◌&&◌, ◌+◌, ◌==◌, ◌||◌, ◌∷◌,
}
use macp_sdk_python.Projection.{
  Projection, ProjectionClass, Ran, returned, set_phase, when_type, with_payload,
}
use macp_sdk_python.Text.{Text}

-- What the handler reads of a `SessionStartPayload`.
pub record SessionStartPayload : Type 0 where
  pub participants : List String

pub record MultiRoundParsers : Type 0 where
  pub commitment : Bytes → Option CommitmentPayload
  pub session_start : Bytes → Option SessionStartPayload

pub record MultiRound : Type 0 where
  pub participants : List String
  pub initiator : Option String
  pub contributions : Dict.Dict Text
  pub round : ℕ
  pub converged : Bool
  pub converged_value : Option Text

-- The branch "SessionStart"
unfoldable pub on_start :
    Envelope → SessionStartPayload → Projection MultiRound → Projection MultiRound
on_start e payload p = set_phase "Contributing" (record p {
  state = record p.state {
    participants = payload.participants;
    initiator = if e.sender == "" then p.state.initiator else some e.sender;
  };
})

-- `self.contributions.get(sender) != value`
unfoldable pub differs : Option Text → Text → Bool
unfolding same_text
differs none value = true
differs (some prior) value = not (same_text prior value)

unfoldable pub add_value : String → Text → MultiRound → MultiRound
unfolding differs
add_value sender value s =
    if differs (Dict.get sender s.contributions) value
    then record s { round = s.round + 1; contributions = Dict.set sender value s.contributions }
    else s

-- A set's members, each once; here one more value is added.
unfoldable pub include : Text → List Text → List Text
unfolding same_text
include v vs = if any (same_text v) vs then vs else v ∷ vs

-- `{self.contributions[p] for p in self.participants}`, where no participant is missing
unfoldable pub value_set : List String → Dict.Dict Text → List Text
unfolding include
value_set [] d = []
value_set (p ∷ ps) d =
    let rest = value_set ps d in elim (Dict.get p d) [ none ↦ rest | some v ↦ include v rest ]

-- `if len(values) == 1: ...`
unfoldable pub settle : List Text → Projection MultiRound → Projection MultiRound
settle [] p = p
settle (v ∷ []) p =
    set_phase "Converged"
      (record p { state = record p.state { converged = true; converged_value = some v } })
settle (v ∷ w ∷ vs) p = p

unfoldable pub is_missing : Dict.Dict Text → String → Bool
is_missing d name = not (Dict.has name d)

-- `_check_convergence`
unfoldable pub check_convergence : Projection MultiRound → Projection MultiRound
unfolding is_missing value_set settle
check_convergence p =
    if is_empty p.state.participants
    then p
    else if any (is_missing p.state.contributions) p.state.participants
    then p
    else settle (value_set p.state.participants p.state.contributions) p

unfoldable pub is_participant : String → MultiRound → Bool
is_participant sender s = is_empty s.participants || contains sender s.participants

-- The branch "Contribute", by the value that the payload reads as
unfoldable pub on_contribute :
    Envelope → Option Text → Projection MultiRound → Projection MultiRound
unfolding add_value check_convergence
on_contribute e none p = p
on_contribute e (some value) p =
    if p.state.converged
    then p
    else if not (is_empty p.state.participants) && not (contains e.sender p.state.participants)
    then p
    else check_convergence (record p { state = add_value e.sender value p.state })

-- `decode` and `encode` are UTF-8's; `seed_participants` and `seed_initiator` are the arguments of
-- `__init__`.
module _ (decode : Bytes → Option Text) (encode : Text → Bytes) (parse : MultiRoundParsers) where
  unfoldable pub apply_mode_message : Envelope → Projection MultiRound → Ran MultiRound
  unfolding on_start on_contribute
  apply_mode_message e p =
      when_type e "SessionStart" (with_payload (parse.session_start e.payload) (on_start e) p) (
        when_type e "Contribute"
          ((returned, on_contribute e (contribute_value decode encode e.payload) p))
          ((returned, p)))

  abbrev pub multi_round_projection : List String → Option String → ProjectionClass MultiRound
  multi_round_projection seed_participants seed_initiator = record {
    mode = "ext.multi_round.v1";
    initial_phase = "Pending";
    initial_state = record {
      participants = seed_participants;
      initiator = seed_initiator;
      contributions = [];
      round = 0;
      converged = false;
      converged_value = none;
    };
    parse_commitment = parse.commitment;
    apply_mode_message = apply_mode_message;
  }
