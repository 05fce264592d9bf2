-- ===== src/Projection/Rollback.antt =====
-- The `except` block of `apply_envelope`.
use macp_sdk_python.Envelope.{Envelope}
use macp_sdk_python.Prelude.{
  Bool, Bool-cases, List, [], ap, arith, contains, discard_absent, eq_refl, eqb, false, inl, inr,
  refl, true, ◌&&◌, ◌++◌, ◌==◌, ◌∙◌, ◌∷◌, ◌≡◌, ◌⊎◌,
}
use macp_sdk_python.Projection.{
  Outcome, Projection, ProjectionClass, Ran, apply_envelope, dispatch, has_id, pop_last, raised,
  recover, register, returned, rollback,
}
use macp_sdk_python.Projection.Contract.{IsLawful}

eqb_refl : (e : Envelope) → eqb e.ref e.ref ≡ true
eqb_refl e = ground arith

pop_last-append : (e : Envelope) (t : List Envelope) → pop_last e (t ++ e ∷ []) ≡ t
unfolding pop_last
pop_last-append e [] = ground arith
pop_last-append e (x ∷ []) = ground arith
pop_last-append e (x ∷ y ∷ t) = ap (λ l. x ∷ l) (pop_last-append e (y ∷ t))

module _ {S : Type 0} (e : Envelope) (p : Projection S) where
  pub rollback-register :
      (added : Bool)
      → (added && contains e.message_id p.seen_message_ids) ≡ false
      → rollback e added (register e added p) ≡ p
  unfolding rollback register
  rollback-register false h = rw pop_last-append
  rollback-register true h =
      rw (pop_last-append, eq_refl, discard_absent e.message_id p.seen_message_ids h)

-- The ways in which `apply_envelope` can end.
module _ {S : Type 0} (cls : ProjectionClass S) (e : Envelope) (p : Projection S) where
  -- Another mode's envelope, or one that was seen.
  abbrev pub IsIgnored : Type 0
  IsIgnored =
      ((e.mode == cls.mode) ≡ false)
      ⊎ ((has_id e && contains e.message_id p.seen_message_ids) ≡ true)

  pub record IsFresh : Type 0 where
    pub ours : (e.mode == cls.mode) ≡ true
    pub unseen : (has_id e && contains e.message_id p.seen_message_ids) ≡ false

  abbrev pub dispatched : Ran S
  dispatched = dispatch cls e (register e (has_id e) p)

  pub data Applied (r : Ran S) : Type 0 where
    ignored : IsIgnored → r ≡ (returned, p) → Applied r
    failed : IsFresh → dispatched.0 ≡ raised → r ≡ (raised, p) → Applied r
    applied : IsFresh → dispatched.0 ≡ returned → r ≡ dispatched → Applied r

Outcome-cases : (o : Outcome) → (o ≡ raised) ⊎ (o ≡ returned)
Outcome-cases raised = inl refl
Outcome-cases returned = inr refl

recover-raised :
    {S : Type 0} (e : Envelope) (added : Bool) (r : Ran S) (s : Projection S)
    → r.0 ≡ raised
    → r.1 ≡ s
    → recover e added r ≡ (raised, rollback e added s)
unfolding recover
recover-raised e added (returned, q) s h k = cc
recover-raised e added (raised, q) s h k = rw k

recover-returned :
    {S : Type 0} (e : Envelope) (added : Bool) (r : Ran S) → r.0 ≡ returned → recover e added r ≡ r
unfolding recover
recover-returned e added (returned, q) h = refl
recover-returned e added (raised, q) h = cc

module _ {S : Type 0} (cls : ProjectionClass S) (lawful : IsLawful cls) where
  dispatch-atomic :
      (e : Envelope) (p : Projection S) → (dispatch cls e p).0 ≡ raised → (dispatch cls e p).1 ≡ p
  unfolding dispatch
  dispatch-atomic e p h = ground (arith, (lawful e p).atomic)

  pub apply-cases : (e : Envelope) (p : Projection S) → Applied cls e p (apply_envelope cls e p)
  unfolding apply_envelope
  apply-cases e p = elim (Bool-cases (e.mode == cls.mode)) [
    | inr foreign ↦ ignored (inl foreign) (rw foreign)
    | inl ours ↦ elim (Bool-cases (has_id e && contains e.message_id p.seen_message_ids)) [
      | inl seen ↦ ignored (inr seen) (rw (ours, seen))
      | inr unseen ↦ elim (Outcome-cases (dispatched cls e p).0) [
        | inl bad ↦
            failed (record { ours = ours; unseen = unseen }) bad
              (rw (ours, unseen)
                (recover-raised e (has_id e) _ _ bad (dispatch-atomic e _ bad)
                  ∙ ap (λ q. (raised, q)) (rollback-register e p (has_id e) unseen)))
        | inr good ↦
            applied (record { ours = ours; unseen = unseen }) good
              (rw (ours, unseen) (recover-returned e (has_id e) _ good))
      ]
    ]
  ]

  -- When applying an envelope raises, the projection is left exactly as it was, with its transcript,
  -- its seen ids, its phase, its anomalies and the mode's own state.
  pub apply_envelope-atomic :
      (e : Envelope) (p : Projection S)
      → (apply_envelope cls e p).0 ≡ raised
      → (apply_envelope cls e p).1 ≡ p
  apply_envelope-atomic e p h = elim (apply-cases e p) [
    | ignored _ r ↦ ap (λ (t : Ran S). t.1) r
    | failed _ _ r ↦ ap (λ (t : Ran S). t.1) r
    | applied _ good r ↦ cc (ap (λ (t : Ran S). t.0) r)
  ]

  -- A fresh envelope whose dispatch returns is applied.
  pub apply_envelope-dispatched :
      (e : Envelope) (p : Projection S)
      → (e.mode == cls.mode) ≡ true
      → contains e.message_id p.seen_message_ids ≡ false
      → (dispatched cls e p).0 ≡ returned
      → apply_envelope cls e p ≡ dispatched cls e p
  apply_envelope-dispatched e p ours unseen good = elim (apply-cases e p) [
    | ignored (inl foreign) _ ↦ cc (foreign, ours)
    | ignored (inr seen) _ ↦ ground (arith, seen, unseen)
    | failed _ bad _ ↦ cc (bad, good)
    | applied _ _ r ↦ r
  ]
