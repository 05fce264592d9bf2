-- ===== src/MultiRound/Steps.antt =====
-- What a message can do to the fields of `MultiRoundProjection`, as a step relation.
use macp_sdk_python.Contribute.Decision.{contribute_value}
use macp_sdk_python.Envelope.{Bytes, Envelope}
use macp_sdk_python.MultiRound.{
  MultiRound, MultiRoundParsers, SessionStartPayload, add_value, apply_mode_message,
  check_convergence, is_missing, is_participant, on_contribute, on_start, settle, value_set,
}
use macp_sdk_python.Prelude.{
  Bool-cases, List, Option, [], any, arith, eq_iff, false, if◌then◌else◌, inl, inr, is_empty, none,
  refl, some, true, ◌==◌, ◌∷◌, ◌≡◌,
}
use macp_sdk_python.Projection.{Projection, when_type, with_payload}
use macp_sdk_python.Projection.Contract.{state-set_phase}
use macp_sdk_python.Text.{Text}

-- What `_check_convergence` leaves of the fields.
abbrev pub settled : List Text → MultiRound → MultiRound
settled [] s = s
settled (v ∷ []) s = record s { converged = true; converged_value = some v }
settled (v ∷ w ∷ vs) s = s

abbrev pub checked : MultiRound → MultiRound
checked s =
    if is_empty s.participants
    then s
    else if any (is_missing s.contributions) s.participants
    then s
    else settled (value_set s.participants s.contributions) s

state-settle :
    (vs : List Text) (p : Projection MultiRound) → (settle vs p).state ≡ settled vs p.state
unfolding settle
state-settle [] p = refl
state-settle (v ∷ []) p = state-set_phase "Converged" _
state-settle (v ∷ w ∷ vs) p = refl

pub state-check_convergence :
    (p : Projection MultiRound) → (check_convergence p).state ≡ checked p.state
unfolding check_convergence
state-check_convergence p =
    ground (arith, state-settle (value_set p.state.participants p.state.contributions) p)

pub data Step (e : Envelope) (s t : MultiRound) : Type 0 where
  same : t ≡ s → Step e s t
  started :
      (payload : SessionStartPayload)
      → e.message_type ≡ "SessionStart"
      → t ≡ record s {
        participants = payload.participants;
        initiator = if e.sender == "" then s.initiator else some e.sender;
      }
      → Step e s t
  contributed :
      (value : Text)
      → s.converged ≡ false
      → is_participant e.sender s ≡ true
      → t ≡ checked (add_value e.sender value s)
      → Step e s t

module _ (e : Envelope) (p : Projection MultiRound) where
  on_start-Step :
      (payload : SessionStartPayload)
      → e.message_type ≡ "SessionStart"
      → Step e p.state (on_start e payload p).state
  unfolding on_start
  on_start-Step payload h = started payload h (state-set_phase "Contributing" _)

  pub on_contribute-Step : (o : Option Text) → Step e p.state (on_contribute e o p).state
  unfolding on_contribute is_participant
  on_contribute-Step none = same refl
  on_contribute-Step (some value) = elim (Bool-cases p.state.converged) [
    | inl y ↦ same (rw y)
    | inr n ↦ elim (Bool-cases (is_participant e.sender p.state)) [
      | inl entitled ↦ contributed value n entitled (
          ground (
            arith,
            state-check_convergence (record p { state = add_value e.sender value p.state }),
          ))
      | inr stranger ↦ same (ground arith)
    ]
  ]

  started_or_same :
      (o : Option SessionStartPayload)
      → e.message_type ≡ "SessionStart"
      → Step e p.state (with_payload o (on_start e) p).1.state
  unfolding with_payload
  started_or_same none h = same refl
  started_or_same (some payload) h = on_start-Step payload h

  pub apply_mode_message-Step :
      (decode : Bytes → Option Text) (encode : Text → Bytes) (parse : MultiRoundParsers)
      → Step e p.state (apply_mode_message decode encode parse e p).1.state
  unfolding apply_mode_message when_type
  apply_mode_message-Step decode encode parse =
      elim (Bool-cases (e.message_type == "SessionStart")) [
        | inl y ↦ rw y (
            started_or_same (parse.session_start e.payload)
              ((eq_iff e.message_type "SessionStart").0 y))
        | inr n ↦ rw n (elim (Bool-cases (e.message_type == "Contribute")) [
          | inl y ↦ rw y (on_contribute-Step (contribute_value decode encode e.payload))
          | inr m ↦ rw m (same refl)
        ])
      ]
