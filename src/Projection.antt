-- ===== src/Projection.antt =====
-- src/macp_sdk/base_projection.py: `BaseProjection`, generic in the fields that a mode's subclass
-- adds. A method that may raise returns an outcome beside the state that it leaves.
pub mod Contract
pub mod Rollback
pub mod Replay
pub mod Ids
pub mod Terminal
use macp_sdk_python.Envelope.{Bytes, CommitmentPayload, Envelope}
use macp_sdk_python.Prelude.{
  Bool, List, Option, String, [], contains, discard, eqb, false, if◌then◌else◌, none, not, some,
  true, ◌&&◌, ◌++◌, ◌==◌, ◌∷◌,
}

pub record ProjectionAnomaly : Type 0 where
  pub kind : String
  pub mode : String
  pub message_type : String
  pub message_id : String
  pub sender : String
  pub subject_id : String
  pub detail : String

-- `state` holds the subclass's own fields; `seen_message_ids` lists the members of the set.
pub record Projection (S : Type 0) : Type 0 where
  pub transcript : List Envelope
  pub phase : String
  pub commitment : Option CommitmentPayload
  pub seen_message_ids : List String
  pub anomalies : List ProjectionAnomaly
  pub state : S

pub data Outcome : Type 0 where
  returned raised : Outcome

-- What a method of a projection does: it returns or raises, and leaves a state.
abbrev pub Ran : Type 0 → Type 0
Ran S = Outcome × Projection S

-- `if self.transcript and self.transcript[-1] is envelope: self.transcript.pop()`
unfoldable pub pop_last : Envelope → List Envelope → List Envelope
pop_last e [] = []
pop_last e (x ∷ []) = if eqb x.ref e.ref then [] else x ∷ []
pop_last e (x ∷ y ∷ rest) = x ∷ pop_last e (y ∷ rest)

-- A subclass: its `MODE`, what `__init__` sets, its `_apply_mode_message`, and the generated parser
-- of a `CommitmentPayload`, which answers `none` where `ParseFromString` raises.
pub record ProjectionClass (S : Type 0) : Type 0 where
  pub mode : String
  pub initial_phase : String
  pub initial_state : S
  pub parse_commitment : Bytes → Option CommitmentPayload
  pub apply_mode_message : Envelope → Projection S → Ran S

module _ {S : Type 0} where
  abbrev pub is_committed : Projection S → Bool
  is_committed p = elim p.commitment [ none ↦ false | some _ ↦ true ]

  abbrev pub has_anomalies : Projection S → Bool
  has_anomalies p = elim p.anomalies [ [] ↦ false | _ ∷ _ ↦ true ]

  abbrev pub is_positive_outcome : Projection S → Option Bool
  is_positive_outcome p = elim p.commitment [ none ↦ none | some c ↦ some c.outcome_positive ]

  -- `_set_phase`
  unfoldable pub set_phase : String → Projection S → Projection S
  set_phase phase p = if p.phase == "Committed" then p else record p { phase = phase }

  -- `_record_anomaly`, without its log line
  unfoldable pub record_anomaly : ProjectionAnomaly → Projection S → Projection S
  record_anomaly a p = record p { anomalies = p.anomalies ++ a ∷ [] }

  -- A branch of `_apply_mode_message`: it parses its payload, and goes on if that did not raise.
  unfoldable pub with_payload :
      {P : Type 0} → Option P → (P → Projection S → Projection S) → Projection S → Ran S
  with_payload none branch p = (raised, p)
  with_payload (some payload) branch p = (returned, branch payload p)

  -- `if message_type == name: ...; return`
  unfoldable pub when_type : Envelope → String → Ran S → Ran S → Ran S
  when_type e name r rest = if e.message_type == name then r else rest

  -- The two changes made before the dispatch, and their undoing in the `except` block.
  unfoldable pub register : Envelope → Bool → Projection S → Projection S
  register e added p = record p {
    transcript = p.transcript ++ e ∷ [];
    seen_message_ids = if added then e.message_id ∷ p.seen_message_ids else p.seen_message_ids;
  }

  unfoldable pub rollback : Envelope → Bool → Projection S → Projection S
  unfolding pop_last
  rollback e added p = record p {
    transcript = pop_last e p.transcript;
    seen_message_ids =
        if added then discard e.message_id p.seen_message_ids else p.seen_message_ids;
  }

  unfoldable pub commit : Option CommitmentPayload → Projection S → Ran S
  commit none p = (raised, p)
  commit (some payload) p = (returned, record p { commitment = some payload; phase = "Committed" })

  unfoldable pub recover : Envelope → Bool → Ran S → Ran S
  unfolding rollback
  recover e added (returned, p) = (returned, p)
  recover e added (raised, p) = (raised, rollback e added p)

-- `if message_id:`
abbrev pub has_id : Envelope → Bool
has_id e = not (e.message_id == "")

module _ {S : Type 0} (cls : ProjectionClass S) where
  -- `__init__`
  abbrev pub init : Projection S
  init = record {
    transcript = [];
    phase = cls.initial_phase;
    commitment = none;
    seen_message_ids = [];
    anomalies = [];
    state = cls.initial_state;
  }

  unfoldable pub dispatch : Envelope → Projection S → Ran S
  unfolding commit
  dispatch e p =
      if e.message_type == "Commitment"
      then commit (cls.parse_commitment e.payload) p
      else cls.apply_mode_message e p

  unfoldable pub apply_envelope : Envelope → Projection S → Ran S
  unfolding register recover dispatch
  apply_envelope e p =
      if not (e.mode == cls.mode)
      then (returned, p)
      else if has_id e && contains e.message_id p.seen_message_ids
      then (returned, p)
      else recover e (has_id e) (dispatch e (register e (has_id e) p))

  -- A caller that applies the envelopes in order, and goes on after an exception.
  unfoldable pub feed : List Envelope → Projection S → Projection S
  feed [] p = p
  feed (e ∷ es) p = feed es (apply_envelope e p).1
