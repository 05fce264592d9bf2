-- ===== src/Projection/Ids.antt =====
-- The `message_id` gate of `apply_envelope`.
use macp_sdk_python.Envelope.{Envelope}
use macp_sdk_python.Prelude.{
  List, String, [], ap, arith, contains, eq_iff, eq_refl, false, refl, true, ◌++◌, ◌==◌, ◌||◌, ◌∷◌,
  ◌≡◌,
}
use macp_sdk_python.Projection.{
  Projection, ProjectionClass, Ran, apply_envelope, feed, has_id, init, returned,
}
use macp_sdk_python.Projection.Contract.{IsLawful}
use macp_sdk_python.Projection.Replay.{
  apply_induction, dispatched-seen, dispatched-transcript, feed_induction,
}
use macp_sdk_python.Projection.Rollback.{IsFresh, applied, apply-cases, dispatched, failed, ignored}

abbrev pub ids : List Envelope → List String
ids [] = []
ids (e ∷ es) = e.message_id ∷ ids es

-- No two envelopes have the same id, but for empty ids.
abbrev pub UniqueIds : List Envelope → Type 0
UniqueIds [] = Unit
UniqueIds (e ∷ es) = (has_id e ≡ true → contains e.message_id (ids es) ≡ false) × UniqueIds es

contains-append :
    (s : String) (t : List Envelope) (e : Envelope)
    → contains s (ids (t ++ e ∷ [])) ≡ (contains s (ids t) || e.message_id == s)
contains-append s [] e = ground arith
contains-append s (x ∷ t) e = ground (arith, contains-append s t e)

UniqueIds-append :
    (t : List Envelope) (e : Envelope)
    → UniqueIds t
    → (has_id e ≡ true → contains e.message_id (ids t) ≡ false)
    → UniqueIds (t ++ e ∷ [])
UniqueIds-append [] e u h = (λ _. refl, tt)
UniqueIds-append (x ∷ t) e u h = (
  λ i. ground (
    arith,
    contains-append x.message_id t e,
    u.0 i,
    h,
    eq_iff x.message_id e.message_id,
    eq_iff e.message_id x.message_id,
  ),
  UniqueIds-append t e u.1 (λ i. ground (arith, h i)),
)

pub record HasUniqueIds {S : Type 0} (p : Projection S) : Type 0 where
  pub unique : UniqueIds p.transcript
  -- The set holds the ids of the transcript, and no others.
  pub recorded :
      (s : String)
      → (s == "") ≡ false
      → contains s p.seen_message_ids ≡ contains s (ids p.transcript)

module _ {S : Type 0} (cls : ProjectionClass S) (lawful : IsLawful cls) where
  dispatched-HasUniqueIds :
      (e : Envelope) (p : Projection S)
      → IsFresh cls e p
      → HasUniqueIds p
      → HasUniqueIds (dispatched cls e p).1
  dispatched-HasUniqueIds e p fresh u = record {
    unique = rw (dispatched-transcript cls lawful e p) (
        UniqueIds-append p.transcript e u.unique
          (λ i. ground (arith, fresh.unseen, u.recorded e.message_id)));
    recorded = λ s h.
        rw (dispatched-transcript cls lawful e p, dispatched-seen cls lawful e p)
          (ground (
            arith,
            contains-append s p.transcript e,
            u.recorded s h,
            eq_iff e.message_id s,
            eq_iff e.message_id "",
          ));
  }

  -- After any sequence of envelopes the transcript holds no id twice (empty ids apart), and the
  -- dedup set holds exactly the ids of the transcript.
  pub feed-HasUniqueIds : (es : List Envelope) → HasUniqueIds (feed cls es (init cls))
  feed-HasUniqueIds es =
      feed_induction cls lawful HasUniqueIds
        (λ e p u.
          apply_induction cls lawful HasUniqueIds e p (λ fresh. dispatched-HasUniqueIds e p fresh u)
            u)
        es (init cls) (record { unique = tt; recorded = λ s h. refl })

  abbrev Seen : String → Projection S → Type 0
  Seen s p = contains s p.seen_message_ids ≡ true

  apply-Seen :
      (s : String) (e : Envelope) (p : Projection S) → Seen s p → Seen s (apply_envelope cls e p).1
  apply-Seen s e p h =
      apply_induction cls lawful (Seen s) e p
        (λ _. rw (dispatched-seen cls lawful e p) (ground arith)) h

  apply-Seen_self :
      (e : Envelope) (p : Projection S)
      → (e.mode == cls.mode) ≡ true
      → has_id e ≡ true
      → (apply_envelope cls e p).0 ≡ returned
      → Seen e.message_id (apply_envelope cls e p).1
  apply-Seen_self e p ours i h = elim (apply-cases cls lawful e p) [
    | ignored why r ↦ rw r (ground (arith, why))
    | failed _ _ r ↦ cc (ap (λ (t : Ran S). t.0) r)
    | applied _ _ r ↦
        rw r (rw (dispatched-seen cls lawful e p) (ground (arith, eq_refl e.message_id)))
  ]

  apply_envelope-Seen :
      (e : Envelope) (p : Projection S)
      → has_id e ≡ true
      → Seen e.message_id p
      → apply_envelope cls e p ≡ (returned, p)
  unfolding apply_envelope
  apply_envelope-Seen e p i h = ground (arith, i, h)

  -- An envelope of the projection's mode with an id, once applied without an exception, is a no-op
  -- whenever it comes again, whatever came in between.
  pub apply_envelope-redelivered :
      (e : Envelope) (p : Projection S) (es : List Envelope)
      → (e.mode == cls.mode) ≡ true
      → has_id e ≡ true
      → (apply_envelope cls e p).0 ≡ returned
      → apply_envelope cls e (feed cls es (apply_envelope cls e p).1)
        ≡ (returned, feed cls es (apply_envelope cls e p).1)
  apply_envelope-redelivered e p es ours i h = apply_envelope-Seen e _ i (
      feed_induction cls lawful (Seen e.message_id) (apply-Seen e.message_id) es _
        (apply-Seen_self e p ours i h))
