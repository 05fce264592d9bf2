-- ===== src/Projection/Terminal.antt =====
-- The phase "Committed" and the recorded commitment.
use macp_sdk_python.Envelope.{CommitmentPayload, Envelope}
use macp_sdk_python.Prelude.{List, Option, arith, eq_iff, false, none, refl, some, true, ◌==◌, ◌≡◌}
use macp_sdk_python.Projection.{
  Projection, ProjectionClass, apply_envelope, commit, feed, has_id, init, is_committed, register,
}
use macp_sdk_python.Projection.Contract.{IsLawful, Keeps}
use macp_sdk_python.Projection.Replay.{apply_induction, dispatch_induction, feed_induction}

abbrev pub Agrees : {S : Type 0} → Projection S → Type 0
Agrees p = (p.phase == "Committed") ≡ is_committed p

module _ {S : Type 0} where
  Agrees-Keeps : {e : Envelope} (p q : Projection S) → Keeps e p q → Agrees p → Agrees q
  Agrees-Keeps p q k h = ground (arith, k.committed, k.commitment)

  Agrees-commit :
      (c : Option CommitmentPayload) (p : Projection S) → Agrees p → Agrees (commit c p).1
  unfolding commit
  Agrees-commit none p h = h
  Agrees-commit (some c) p h = refl

  Committed-commit :
      (c : Option CommitmentPayload) (p : Projection S)
      → (p.phase == "Committed") ≡ true
      → ((commit c p).1.phase == "Committed") ≡ true
  unfolding commit
  Committed-commit none p h = h
  Committed-commit (some c) p h = refl

module _ {S : Type 0} (cls : ProjectionClass S) (lawful : IsLawful cls) where
  apply-Agrees : (e : Envelope) (p : Projection S) → Agrees p → Agrees (apply_envelope cls e p).1
  unfolding register
  apply-Agrees e p h =
      apply_induction cls lawful Agrees e p
        (λ _.
          let q = register e (has_id e) p in
          dispatch_induction cls lawful Agrees e q (λ c. Agrees-commit c q h)
            (Agrees-Keeps q _ (lawful e q).keeps h))
        h

  -- After any sequence of envelopes the phase is "Committed" exactly if a commitment is recorded.
  pub feed-Agrees :
      (es : List Envelope)
      → (cls.initial_phase == "Committed") ≡ false
      → (((feed cls es (init cls)).phase == "Committed") ≡ is_committed (feed cls es (init cls)))
  feed-Agrees es h = feed_induction cls lawful Agrees apply-Agrees es (init cls) h

  abbrev InCommitted : Projection S → Type 0
  InCommitted p = (p.phase == "Committed") ≡ true

  apply-InCommitted :
      (e : Envelope) (p : Projection S) → InCommitted p → InCommitted (apply_envelope cls e p).1
  unfolding register
  apply-InCommitted e p h =
      apply_induction cls lawful InCommitted e p
        (λ _.
          let q = register e (has_id e) p in
          dispatch_induction cls lawful InCommitted e q (λ c. Committed-commit c q h)
            (rw ((lawful e q).keeps.committed) h))
        h

  -- A lawful class stays in the phase "Committed".
  pub feed-InCommitted :
      (es : List Envelope) (p : Projection S)
      → p.phase ≡ "Committed"
      → (feed cls es p).phase ≡ "Committed"
  feed-InCommitted es p h =
      (eq_iff _ "Committed").0
        (feed_induction cls lawful InCommitted apply-InCommitted es p ((eq_iff _ "Committed").1 h))
