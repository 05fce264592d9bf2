-- ===== src/Projection/Replay.antt =====
-- Sequences of calls of `apply_envelope`: what a call does to the transcript, and its replay.
-- What a call that applied its envelope leaves.
use macp_sdk_python.Envelope.{CommitmentPayload, Envelope}
use macp_sdk_python.Prelude.{
  Bool-cases, List, Option, [], ap, arith, if◌then◌else◌, inl, inr, none, refl, some, subst, sym,
  ◌++◌, ◌==◌, ◌∙◌, ◌∷◌, ◌≡◌,
}
use macp_sdk_python.Projection.{
  Projection, ProjectionClass, Ran, apply_envelope, commit, dispatch, feed, has_id, init, register,
}
use macp_sdk_python.Projection.Contract.{IsLawful}
use macp_sdk_python.Projection.Rollback.{IsFresh, applied, apply-cases, dispatched, failed, ignored}

commit-state :
    {S : Type 0} (c : Option CommitmentPayload) (p : Projection S) → (commit c p).1.state ≡ p.state
unfolding commit
commit-state none p = refl
commit-state (some c) p = refl

module _ {S : Type 0} (cls : ProjectionClass S) (lawful : IsLawful cls) where
  pub dispatch-keeps :
      (e : Envelope) (q : Projection S)
      → ((dispatch cls e q).1.transcript ≡ q.transcript)
        × ((dispatch cls e q).1.seen_message_ids ≡ q.seen_message_ids)
  unfolding dispatch
  dispatch-keeps e q = ground (arith, (lawful e q).keeps.transcript, (lawful e q).keeps.seen)

  pub dispatched-transcript :
      (e : Envelope) (p : Projection S) → (dispatched cls e p).1.transcript ≡ p.transcript ++ e ∷ []
  unfolding register
  dispatched-transcript e p = (dispatch-keeps e (register e (has_id e) p)).0

  pub dispatched-seen :
      (e : Envelope) (p : Projection S)
      → (dispatched cls e p).1.seen_message_ids
        ≡ (if has_id e then e.message_id ∷ p.seen_message_ids else p.seen_message_ids)
  unfolding register
  dispatched-seen e p = (dispatch-keeps e (register e (has_id e) p)).1

  -- What every call preserves holds after any sequence of calls.
  pub feed_induction :
      (P : Projection S → Type 0)
      → ((e : Envelope) (p : Projection S) → P p → P (apply_envelope cls e p).1)
      → (es : List Envelope) (p : Projection S) → P p
      → P (feed cls es p)
  unfolding feed
  feed_induction P step [] p h = h
  feed_induction P step (e ∷ es) p h = feed_induction P step es _ (step e p h)

  -- To preserve `P` it is enough that an applied envelope does.
  pub apply_induction :
      (P : Projection S → Type 0) (e : Envelope) (p : Projection S)
      → (IsFresh cls e p → P (dispatched cls e p).1)
      → P p
      → P (apply_envelope cls e p).1
  apply_induction P e p step h = elim (apply-cases cls lawful e p) [
    | ignored _ r ↦ rw r h
    | failed _ _ r ↦ rw r h
    | applied fresh _ r ↦ rw r (step fresh)
  ]

  -- What an envelope's dispatch preserves: `P` has to hold after a commitment and after a handler.
  pub dispatch_induction :
      (P : Projection S → Type 0) (e : Envelope) (p : Projection S)
      → ((c : Option CommitmentPayload) → P (commit c p).1)
      → P (cls.apply_mode_message e p).1
      → P (dispatch cls e p).1
  unfolding dispatch
  dispatch_induction P e p h k = elim (Bool-cases (e.message_type == "Commitment")) [
    | inl y ↦ rw y (h (cls.parse_commitment e.payload))
    | inr n ↦ rw n k
  ]

  -- A call takes the subclass's fields along a reflexive relation that every mode message keeps to.
  pub apply_relation :
      (R : S → S → Type 0)
      → ((s : S) → R s s)
      → (e : Envelope) → ((p : Projection S) → R p.state (cls.apply_mode_message e p).1.state)
      → (p : Projection S) → R p.state (apply_envelope cls e p).1.state
  unfolding register
  apply_relation R same e step p =
      apply_induction (λ q. R p.state q.state) e p
        (λ _.
          let q = register e (has_id e) p in
          dispatch_induction (λ t. R p.state t.state) e q
            (λ c. subst (R p.state) (sym (commit-state c q)) (same p.state)) (step q))
        (same p.state)

  -- What a mode message preserves of the subclass's fields, a call does.
  pub apply_state_induction :
      (Q : S → Type 0) (e : Envelope)
      → ((p : Projection S) → Q p.state → Q (cls.apply_mode_message e p).1.state)
      → (p : Projection S) → Q p.state
      → Q (apply_envelope cls e p).1.state
  apply_state_induction Q = apply_relation (λ s t. Q s → Q t) (λ s h. h)

  -- What every mode message preserves of the subclass's fields holds after any sequence of calls.
  pub feed_state_induction :
      (Q : S → Type 0)
      → ((e : Envelope) (p : Projection S) → Q p.state → Q (cls.apply_mode_message e p).1.state)
      → (es : List Envelope) (p : Projection S) → Q p.state
      → Q (feed cls es p).state
  feed_state_induction Q step =
      feed_induction (λ p. Q p.state) λ e p. apply_state_induction Q e (step e) p

  feed-append :
      (es fs : List Envelope) (p : Projection S)
      → feed cls (es ++ fs) p ≡ feed cls fs (feed cls es p)
  unfolding feed
  feed-append [] fs p = refl
  feed-append (e ∷ es) fs p = feed-append es fs _

  feed-singleton :
      (e : Envelope) (p : Projection S) → feed cls (e ∷ []) p ≡ (apply_envelope cls e p).1
  unfolding feed
  feed-singleton e p = refl

  abbrev Replays : Projection S → Type 0
  Replays p = feed cls p.transcript (init cls) ≡ p

  apply-Replays : (e : Envelope) (p : Projection S) → Replays p → Replays (apply_envelope cls e p).1
  apply-Replays e p h = elim (apply-cases cls lawful e p) [
    | ignored _ r ↦ rw r h
    | failed _ _ r ↦ rw r h
    | applied _ _ r ↦
        ap (λ t. feed cls t (init cls))
          (ap (λ (x : Ran S). x.1.transcript) r ∙ dispatched-transcript e p)
        ∙ feed-append p.transcript (e ∷ []) (init cls)
        ∙ ap (feed cls (e ∷ [])) h
        ∙ feed-singleton e p
  ]

  -- Whatever envelopes were fed, redeliveries, foreign modes and envelopes that raised among them,
  -- feeding the transcript to a fresh projection rebuilds the whole projection.
  pub feed-transcript :
      (es : List Envelope)
      → feed cls (feed cls es (init cls)).transcript (init cls) ≡ feed cls es (init cls)
  unfolding feed
  feed-transcript es = feed_induction Replays apply-Replays es (init cls) refl
