-- ===== src/MultiRound/Recorded.antt =====
-- A value that a session contributes, from its bytes on the wire to the session's own projection.
use macp_sdk_python.Dict
use macp_sdk_python.Auth.{AuthConfig}
use macp_sdk_python.Builders.{Outside, bind, build_envelope, built, done}
use macp_sdk_python.Contribute.{canonical_proto}
use macp_sdk_python.Contribute.Decision.{contribute_value, same_text}
use macp_sdk_python.Contribute.Legacy.{contribute_decision-canonical_proto}
use macp_sdk_python.Dict.{Dict, get, get-set}
use macp_sdk_python.Envelope.{Bytes, Envelope}
use macp_sdk_python.MultiRound.{
  MultiRound, MultiRoundParsers, add_value, apply_mode_message, differs, is_participant,
  multi_round_projection, on_contribute,
}
use macp_sdk_python.MultiRound.Actions.{Call, contribute_envelope, contributing, perform, prepare}
use macp_sdk_python.MultiRound.Consensus.{same_text_sound}
use macp_sdk_python.MultiRound.Lawful.{multi_round_projection-IsLawful}
use macp_sdk_python.MultiRound.Rounds.{checked-keeps}
use macp_sdk_python.MultiRound.Steps.{checked, state-check_convergence}
use macp_sdk_python.Prelude.{
  Bool-cases, Option, Option-cases, String, [], ap, arith, contains, eq_refl, false, inl, inr,
  is_empty, length, none, not, refl, some, sym, true, ◌&&◌, ◌<◌, ◌==◌, ◌^◌, ◌∙◌, ◌∷◌, ◌≡◌,
}
use macp_sdk_python.Prelude.Options.{◌>>=◌}
use macp_sdk_python.Projection.{
  Projection, ProjectionClass, Ran, apply_envelope, dispatch, has_id, register, returned, when_type,
}
use macp_sdk_python.Projection.Rollback.{apply_envelope-dispatched}
use macp_sdk_python.Session.{
  Reply, Session, acked, act, answered, envelope, first_auth, send_and_track, sender_for, track_ack,
  tracked_ending,
}
use macp_sdk_python.Session.Identity.{
  Yields, Yields-bind_as, Yields-done, Yields-unless, Yields-unless_as,
}
use macp_sdk_python.Text.{Text}

-- What an envelope of `_contribute_envelope` is.
record Contributes (contribute_bytes : Text → Option Bytes) (s : Session MultiRound) (value : Text)
    (e : Envelope) : Type 0 where
  message_type : e.message_type ≡ "Contribute"
  mode : e.mode ≡ s.mode
  payload : contribute_bytes value ≡ some e.payload
  unconverged : s.projection.state.converged ≡ false
  entitled : (not (e.sender == "") && not (is_participant e.sender s.projection.state)) ≡ false

built-done : {A : Type 0} (o : Option A) (a : A) → built o ≡ done a → o ≡ some a
built-done none a h = cc h
built-done (some b) a h = cc h

contribute_envelope-Contributes :
    (out : Outside) (contribute_bytes : Text → Option Bytes) (c : Call) (s : Session MultiRound)
    (value : Text)
    → Yields
        (Contributes contribute_bytes s value)
        (contribute_envelope out contribute_bytes c s value)
unfolding contribute_envelope envelope build_envelope bind
contribute_envelope-Contributes out contribute_bytes c s value =
    let P = Contributes contribute_bytes s value in
    Yields-unless P (is_empty value) _ (
      Yields-unless_as P s.projection.state.converged _ λ unconverged.
        Yields-bind_as P (sender_for s c.sender c.auth) _ λ resolved found.
          Yields-unless_as P
            (not (resolved == "") && not (is_participant resolved s.projection.state)) _
            λ entitled. Yields-bind_as P (built (contribute_bytes value)) _ λ payload given.
              rw found (record {
                message_type = refl;
                mode = refl;
                payload = built-done (contribute_bytes value) payload given;
                unconverged = unconverged;
                entitled = entitled;
              }))

get-add_value :
    (sender : String) (value : Text) (s : MultiRound)
    → Dict.get sender (add_value sender value s).contributions ≡ some value
unfolding add_value differs
get-add_value sender value s = elim (Option-cases (Dict.get sender s.contributions)) [
  | inl n ↦ rw n (ground (arith, Dict.get-set sender sender value s.contributions, eq_refl sender))
  | inr (prior, y) ↦ elim (Bool-cases (same_text prior value)) [
    | inl equal ↦ ground (arith, y, equal, ap (λ v. some v) (same_text_sound prior value equal))
    | inr n ↦ ground (arith, y, n, Dict.get-set sender sender value s.contributions, eq_refl sender)
  ]
]

pub on_contribute-checked :
    (e : Envelope) (value : Text) (p : Projection MultiRound)
    → p.state.converged ≡ false
    → is_participant e.sender p.state ≡ true
    → (on_contribute e (some value) p).state ≡ checked (add_value e.sender value p.state)
unfolding on_contribute is_participant
on_contribute-checked e value p unconverged entitled = ground (
  arith,
  unconverged,
  entitled,
  state-check_convergence (record p { state = add_value e.sender value p.state }),
)

-- What `on_contribute` leaves, where it goes all the way.
recorded :
    (e : Envelope) (value : Text) (p : Projection MultiRound)
    → p.state.converged ≡ false
    → is_participant e.sender p.state ≡ true
    → Dict.get e.sender (on_contribute e (some value) p).state.contributions ≡ some value
recorded e value p unconverged entitled =
    ap (λ s. Dict.get e.sender s.contributions)
      (on_contribute-checked e value p unconverged entitled)
    ∙ ap (Dict.get e.sender) (checked-keeps (add_value e.sender value p.state)).1
    ∙ get-add_value e.sender value p.state

module _ (decode : Bytes → Option Text) (encode : Text → Bytes) (parse : MultiRoundParsers) where
  abbrev own_class : ProjectionClass MultiRound
  own_class = multi_round_projection decode encode parse [] none

  dispatch-contribute :
      (e : Envelope) (p : Projection MultiRound)
      → e.message_type ≡ "Contribute"
      → dispatch own_class e p
        ≡ (returned, on_contribute e (contribute_value decode encode e.payload) p)
  unfolding dispatch apply_mode_message when_type
  dispatch-contribute e p h = rw h refl

  apply-contribute :
      (e : Envelope) (p : Projection MultiRound) (value : Text)
      → (e.mode == "ext.multi_round.v1") ≡ true
      → e.message_type ≡ "Contribute"
      → contains e.message_id p.seen_message_ids ≡ false
      → contribute_value decode encode e.payload ≡ some value
      → p.state.converged ≡ false
      → is_participant e.sender p.state ≡ true
      → ((apply_envelope own_class e p).0 ≡ returned)
        × (Dict.get e.sender (apply_envelope own_class e p).1.state.contributions ≡ some value)
  unfolding register
  apply-contribute e p value ours type unseen reads unconverged entitled =
      let q = register e (has_id e) p in
      let step : dispatch own_class e q ≡ (returned, on_contribute e (some value) q) =
        dispatch-contribute e q type ∙ ap (λ o. (returned, on_contribute e o q)) reads in
      let applies =
        apply_envelope-dispatched own_class (multi_round_projection-IsLawful decode encode parse) e
          p ours unseen (ap (λ (t : Ran MultiRound). t.0) step)
        ∙ step in
      (
        ap (λ (t : Ran MultiRound). t.0) applies,
        ap (λ (t : Ran MultiRound). Dict.get e.sender t.1.state.contributions) applies
            ∙ recorded e value q unconverged entitled,
      )

  contribute_value-canonical_proto :
      (value : Text)
      → decode (encode value) ≡ some value
      → decode [] ≡ some []
      → is_empty (encode value) ≡ false
      → length (encode value) < 2 ^ 64
      → contribute_value decode encode (canonical_proto decode encode value) ≡ some value
  unfolding contribute_value
  contribute_value-canonical_proto value codec empty nonempty small =
      ap (λ o. o >>= λ (_, v). some v)
        (contribute_decision-canonical_proto decode encode value codec empty nonempty small)

  -- Where the generated class writes a value in the canonical protobuf form, and UTF-8 decodes what it
  -- encodes, a value that a multi-round session sends under a sender and with a fresh message id, and that
  -- the runtime acknowledges, is the sender's latest contribution in the session's own projection.
  pub contribute_envelope-recorded :
      (out : Outside) (contribute_bytes : Text → Option Bytes)
      (send : Envelope → Option AuthConfig → Reply) (c : Call) (s : Session MultiRound)
      (value : Text) (e : Envelope)
      → (s.mode == "ext.multi_round.v1") ≡ true
      → contribute_envelope out contribute_bytes c s value ≡ done e
      → send e (first_auth c.auth s.auth) ≡ acked
      → contains e.message_id s.projection.seen_message_ids ≡ false
      → (e.sender == "") ≡ false
      → contribute_bytes value ≡ some (canonical_proto decode encode value)
      → decode (encode value) ≡ some value
      → decode [] ≡ some []
      → is_empty (encode value) ≡ false
      → length (encode value) < 2 ^ 64
      → let r = perform out contribute_bytes own_class send c s (contributing value) in
        (r.ending ≡ answered acked)
        × (r.sent ≡ e ∷ [])
        × (Dict.get e.sender r.projection.state.contributions ≡ some value)
  unfolding act send_and_track track_ack perform prepare
  contribute_envelope-recorded out contribute_bytes send c s value e mode made acks unseen named
        writes codec empty nonempty small =
      let given =
        Yields-done (Contributes contribute_bytes s value)
          (contribute_envelope out contribute_bytes c s value) e
          (contribute_envelope-Contributes out contribute_bytes c s value) made in
      let bytes : canonical_proto decode encode value ≡ e.payload = cc (writes, given.payload) in
      let reads : contribute_value decode encode e.payload ≡ some value =
        ap (contribute_value decode encode) (sym bytes)
        ∙ contribute_value-canonical_proto value codec empty nonempty small in
      let (returns, latest) =
        apply-contribute e s.projection value
          (ap (λ m. m == "ext.multi_round.v1") given.mode ∙ mode) given.message_type unseen reads
          given.unconverged (ground (arith, given.entitled, named)) in
      let performed : perform out contribute_bytes own_class send c s (contributing value)
          ≡ track_ack own_class send s e acked =
        ap (λ m. act own_class send s m c.auth) made ∙ ap (track_ack own_class send s e) acks in
      rw performed (ap (tracked_ending own_class send) returns, refl, latest)
