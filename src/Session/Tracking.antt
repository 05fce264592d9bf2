-- ===== src/Session/Tracking.antt =====
-- What an action of a session does to the session's own projection.
use macp_sdk_python.Auth.{AuthConfig}
use macp_sdk_python.Builders.{Attempt, done, identity_mismatch, overflowed, proto_error, refused}
use macp_sdk_python.Envelope.{Envelope}
use macp_sdk_python.Prelude.{
  List, Option, [], ap, inl, inr, refl, subst, sym, true, ◌++◌, ◌∷◌, ◌≡◌, ◌≢◌, ◌⊎◌,
}
use macp_sdk_python.Projection.{
  Outcome, Projection, ProjectionClass, apply_envelope, raised, returned,
}
use macp_sdk_python.Projection.Contract.{IsLawful}
use macp_sdk_python.Projection.Replay.{dispatched-transcript}
use macp_sdk_python.Projection.Rollback.{
  applied, apply-cases, apply_envelope-atomic, failed, ignored,
}
use macp_sdk_python.Session.{
  Reply, Session, acked, act, answered, auth_of, expected_of, first_auth, nacked, send_and_track,
  send_error, track_ack, tracked_ending,
}
use macp_sdk_python.Session.Identity.{IsAddressed, Yields, is_expected}

abbrev pub AllOf : {A : Type 0} → (A → Type 0) → List A → Type 0
AllOf P [] = Unit
AllOf P (x ∷ xs) = P x × AllOf P xs

pub AllOf-append :
    {A : Type 0} (P : A → Type 0) (xs : List A) (x : A) → AllOf P xs → P x → AllOf P (xs ++ x ∷ [])
AllOf-append P [] x h k = (k, tt)
AllOf-append P (y ∷ xs) x h k = (h.0, AllOf-append P xs x h.1 k)

transcript-apply_envelope :
    {S : Type 0} (cls : ProjectionClass S)
    → IsLawful cls
    → (e : Envelope) (p : Projection S)
    → ((apply_envelope cls e p).1.transcript ≡ p.transcript)
      ⊎ ((apply_envelope cls e p).1.transcript ≡ p.transcript ++ e ∷ [])
transcript-apply_envelope cls lawful e p = elim (apply-cases cls lawful e p) [
  | ignored _ r ↦ inl (rw r refl)
  | failed _ _ r ↦ inl (rw r refl)
  | applied _ _ r ↦ inr (rw r (dispatched-transcript cls lawful e p))
]

module _ {S : Type 0} (cls : ProjectionClass S) (lawful : IsLawful cls)
    (send : Envelope → Option AuthConfig → Reply) (s : Session S) where
  -- An acknowledged envelope of this session, under the expected sender.
  pub record IsOwn (e : Envelope) : Type 0 where
    pub mode : e.mode ≡ s.mode
    pub session_id : e.session_id ≡ s.session_id
    pub auth : Option AuthConfig
    pub acknowledged : send e (first_auth auth s.auth) ≡ acked
    pub sender : is_expected (expected_of (auth_of s auth)) e.sender ≡ true

  tracks :
      (e : Envelope) (auth : Option AuthConfig) (r : Reply)
      → IsAddressed s auth e
      → send e (first_auth auth s.auth) ≡ r
      → AllOf IsOwn s.projection.transcript
      → AllOf IsOwn (track_ack cls send s e r).projection.transcript
  unfolding track_ack
  tracks e auth acked a h k = elim (transcript-apply_envelope cls lawful e s.projection) [
    | inl stays ↦ subst (AllOf IsOwn) (sym stays) k
    | inr grows ↦ subst (AllOf IsOwn) (sym grows) (
        AllOf-append IsOwn s.projection.transcript e k (record {
          mode = a.mode;
          session_id = a.session_id;
          auth = auth;
          acknowledged = h;
          sender = a.sender;
        }))
  ]
  tracks e auth nacked a h k = k
  tracks e auth send_error a h k = k

  pub act-IsOwn :
      (m : Attempt Envelope) (auth : Option AuthConfig)
      → Yields (IsAddressed s auth) m
      → AllOf IsOwn s.projection.transcript
      → AllOf IsOwn (act cls send s m auth).projection.transcript
  unfolding act send_and_track
  act-IsOwn (done e) auth a k = tracks e auth _ a refl k
  act-IsOwn refused auth a k = k
  act-IsOwn (identity_mismatch _ _) auth a k = k
  act-IsOwn overflowed auth a k = k
  act-IsOwn proto_error auth a k = k

  undone :
      (e : Envelope) (o : Outcome)
      → (apply_envelope cls e s.projection).0 ≡ o
      → tracked_ending cls send (apply_envelope cls e s.projection).0 ≢ answered acked
      → (apply_envelope cls e s.projection).1 ≡ s.projection
  undone e raised h k = apply_envelope-atomic cls lawful e s.projection h
  undone e returned h k = absurd (k (ap (tracked_ending cls send) h))

  unrecorded :
      (e : Envelope) (r : Reply)
      → (track_ack cls send s e r).ending ≢ answered acked
      → (track_ack cls send s e r).projection ≡ s.projection
  unfolding track_ack
  unrecorded e acked h = undone e _ refl h
  unrecorded e nacked h = refl
  unrecorded e send_error h = refl

  -- An action of a session helper that does not end in an acknowledgement, because its arguments are
  -- refused, the send is refused or raises, or the projection cannot read the envelope, leaves the
  -- session's projection as it was.
  pub act-projection :
      (m : Attempt Envelope) (auth : Option AuthConfig)
      → (act cls send s m auth).ending ≢ answered acked
      → (act cls send s m auth).projection ≡ s.projection
  unfolding act send_and_track
  act-projection (done e) auth h = unrecorded e _ h
  act-projection refused auth h = refl
  act-projection (identity_mismatch _ _) auth h = refl
  act-projection overflowed auth h = refl
  act-projection proto_error auth h = refl
