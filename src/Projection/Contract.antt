-- ===== src/Projection/Contract.antt =====
-- The contract that `_apply_mode_message` of a subclass keeps, as base_projection.py states it: what
-- it leaves alone, "raise before mutate", and the guard of the phase "Committed".
use macp_sdk_python.Envelope.{Envelope}
use macp_sdk_python.Prelude.{
  Bool, Bool-cases, List, Option, String, [], arith, false, if◌then◌else◌, inl, inr, none, refl,
  some, subst, sym, true, ◌++◌, ◌==◌, ◌∷◌, ◌≡◌, ◌⊎◌,
}
use macp_sdk_python.Projection.{
  Projection, ProjectionAnomaly, ProjectionClass, Ran, raised, record_anomaly, returned, set_phase,
  when_type, with_payload,
}

-- At most one anomaly is added, and it names the envelope.
abbrev pub Logs : Envelope → List ProjectionAnomaly → List ProjectionAnomaly → Type 0
Logs e before after =
    (after ≡ before)
    ⊎ ((a : ProjectionAnomaly) × (after ≡ before ++ a ∷ [])
        × (a.message_id ≡ e.message_id)
        × (a.sender ≡ e.sender))

-- What a branch that has parsed its payload may do to the base class's fields.
pub record Keeps {S : Type 0} (e : Envelope) (p q : Projection S) : Type 0 where
  pub transcript : q.transcript ≡ p.transcript
  pub seen : q.seen_message_ids ≡ p.seen_message_ids
  pub commitment : q.commitment ≡ p.commitment
  pub committed : (q.phase == "Committed") ≡ (p.phase == "Committed")
  pub logs : Logs e p.anomalies q.anomalies

-- A run of `_apply_mode_message`: as above if it returns, and nothing at all if it raises.
pub record Obeys {S : Type 0} (e : Envelope) (p : Projection S) (r : Ran S) : Type 0 where
  pub keeps : Keeps e p r.1
  pub atomic : r.0 ≡ raised → r.1 ≡ p

abbrev pub IsLawful : {S : Type 0} → ProjectionClass S → Type 0
IsLawful {S} cls = (e : Envelope) (p : Projection S) → Obeys e p (cls.apply_mode_message e p)

module _ {S : Type 0} where
  anomalies-set_phase :
      (phase : String) (q : Projection S) → (set_phase phase q).anomalies ≡ q.anomalies
  unfolding set_phase
  anomalies-set_phase phase q = ground arith

module _ {S : Type 0} (e : Envelope) where
  pub Keeps-refl : (p : Projection S) → Keeps e p p
  Keeps-refl p = record {
    transcript = refl;
    seen = refl;
    commitment = refl;
    committed = refl;
    logs = inl refl;
  }

  pub Keeps-if :
      (b : Bool) (p q r : Projection S) → Keeps e p q → Keeps e p r → Keeps e p (if b then q else r)
  Keeps-if true p q r h k = h
  Keeps-if false p q r h k = k

  -- A branch that changes the subclass's fields alone.
  pub Keeps-state : (p : Projection S) (s : S) → Keeps e p (record p { state = s })
  Keeps-state p s = record {
    transcript = refl;
    seen = refl;
    commitment = refl;
    committed = refl;
    logs = inl refl;
  }

  -- A branch that ends in `_set_phase`.
  pub Keeps-set_phase :
      (phase : String) (p q : Projection S)
      → (phase == "Committed") ≡ false
      → Keeps e p q
      → Keeps e p (set_phase phase q)
  unfolding set_phase
  Keeps-set_phase phase p q h k = record {
    transcript = ground (arith, k.transcript);
    seen = ground (arith, k.seen);
    commitment = ground (arith, k.commitment);
    committed = ground (arith, k.committed, h);
    logs = subst (Logs e p.anomalies) (sym (anomalies-set_phase phase q)) k.logs;
  }

  pub Keeps-record_anomaly :
      (a : ProjectionAnomaly) (p : Projection S)
      → a.message_id ≡ e.message_id
      → a.sender ≡ e.sender
      → Keeps e p (record_anomaly a p)
  unfolding record_anomaly
  Keeps-record_anomaly a p i s = record {
    transcript = refl;
    seen = refl;
    commitment = refl;
    committed = refl;
    logs = inr (a, refl, i, s);
  }

  pub Obeys-with_payload :
      {P : Type 0} (payload : Option P) (branch : P → Projection S → Projection S)
      (p : Projection S)
      → ((x : P) → Keeps e p (branch x p))
      → Obeys e p (with_payload payload branch p)
  unfolding with_payload
  Obeys-with_payload none branch p k = record { keeps = Keeps-refl p; atomic = λ _. refl }
  Obeys-with_payload (some x) branch p k = record { keeps = k x; atomic = λ h. cc }

  pub Obeys-returned : (p q : Projection S) → Keeps e p q → Obeys e p (returned, q)
  Obeys-returned p q k = record { keeps = k; atomic = λ h. cc }

  pub Obeys-when_type :
      (name : String) (p : Projection S) (r t : Ran S)
      → Obeys e p r
      → Obeys e p t
      → Obeys e p (when_type e name r t)
  unfolding when_type
  Obeys-when_type name p r t h k = elim (Bool-cases (e.message_type == name)) [
    | inl y ↦ rw y h
    | inr n ↦ rw n k
  ]

-- A run of `_apply_mode_message` takes the subclass's fields along the step relation `R`.
pub record Moves {S : Type 0} (R : S → S → Type 0) (p : Projection S) (r : Ran S) : Type 0 where
  pub step : R p.state r.1.state

module _ {S : Type 0} (R : S → S → Type 0) (p : Projection S) where
  pub Moves-with_payload :
      {P : Type 0} (payload : Option P) (branch : P → Projection S → Projection S)
      → R p.state p.state
      → ((x : P) → R p.state (branch x p).state)
      → Moves R p (with_payload payload branch p)
  unfolding with_payload
  Moves-with_payload none branch stay k = record { step = stay }
  Moves-with_payload (some x) branch stay k = record { step = k x }

  pub Moves-returned : R p.state p.state → Moves R p (returned, p)
  Moves-returned stay = record { step = stay }

  pub Moves-when_type :
      (e : Envelope) (name : String) (r t : Ran S)
      → Moves R p r
      → Moves R p t
      → Moves R p (when_type e name r t)
  unfolding when_type
  Moves-when_type e name r t h k = elim (Bool-cases (e.message_type == name)) [
    | inl y ↦ rw y h
    | inr n ↦ rw n k
  ]

pub state-set_phase :
    {S : Type 0} (phase : String) (p : Projection S) → (set_phase phase p).state ≡ p.state
unfolding set_phase
state-set_phase phase p = ground arith
