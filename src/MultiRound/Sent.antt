-- ===== src/MultiRound/Sent.antt =====
-- Whatever a program does with a multi-round session, its envelopes are the session's own.
use macp_sdk_python.Auth.{AuthConfig}
use macp_sdk_python.Builders.{Outside, SessionStart}
use macp_sdk_python.Envelope.{Bytes, Envelope}
use macp_sdk_python.MultiRound.{MultiRound, is_participant}
use macp_sdk_python.MultiRound.Actions.{
  Action, Call, CommitArguments, committing, contribute_envelope, contributing, is_other_than,
  multi_round_commit, multi_round_start, perform, prepare, run, starting,
}
use macp_sdk_python.Prelude.{List, Option, [], is_empty, not, ◌&&◌, ◌==◌, ◌∷◌}
use macp_sdk_python.Projection.{Projection, ProjectionClass}
use macp_sdk_python.Projection.Contract.{IsLawful}
use macp_sdk_python.Session.{Reply, Session}
use macp_sdk_python.Session.Identity.{
  IsAddressed, Yields, Yields-bind, Yields-unless, envelope-IsAddressed, start_envelope-IsAddressed,
}
use macp_sdk_python.Session.Tracking.{AllOf, IsOwn, act-IsOwn}
use macp_sdk_python.Text.{Text}

module _ (out : Outside) (contribute_bytes : Text → Option Bytes) where
  multi_round_start-IsAddressed :
      (c : Call) (s : Session MultiRound) (start : SessionStart)
      → Yields (IsAddressed s c.auth) (multi_round_start out contribute_bytes c s start)
  unfolding multi_round_start
  multi_round_start-IsAddressed c s start =
      Yields-unless (IsAddressed s c.auth) (not (s.mode_version == "1.0.0")) _
        (start_envelope-IsAddressed out c.fresh s c.sender c.auth start)

  contribute_envelope-IsAddressed :
      (c : Call) (s : Session MultiRound) (value : Text)
      → Yields (IsAddressed s c.auth) (contribute_envelope out contribute_bytes c s value)
  unfolding contribute_envelope
  contribute_envelope-IsAddressed c s value =
      let P = IsAddressed s c.auth in
      Yields-unless P (is_empty value) _ (
        Yields-unless P s.projection.state.converged _ (
          Yields-bind P _ _ λ resolved.
            Yields-unless P
              (not (resolved == "") && not (is_participant resolved s.projection.state)) _
              (Yields-bind P _ _ (envelope-IsAddressed s c.sender c.auth c.fresh "Contribute"))))

  multi_round_commit-IsAddressed :
      (c : Call) (s : Session MultiRound) (a : CommitArguments)
      → Yields (IsAddressed s c.auth) (multi_round_commit out contribute_bytes c s a)
  unfolding multi_round_commit
  multi_round_commit-IsAddressed c s a =
      let P = IsAddressed s c.auth in
      Yields-bind P _ _ λ resolved.
        Yields-unless P (is_other_than s.projection.state.initiator resolved) _ (
          Yields-bind P _ _
            λ _. Yields-bind P _ _ (envelope-IsAddressed s c.sender c.auth c.fresh "Commitment"))

  pub prepare-IsAddressed :
      (c : Call) (s : Session MultiRound) (a : Action)
      → Yields (IsAddressed s c.auth) (prepare out contribute_bytes c s a)
  unfolding prepare
  prepare-IsAddressed c s (starting start) = multi_round_start-IsAddressed c s start
  prepare-IsAddressed c s (contributing value) = contribute_envelope-IsAddressed c s value
  prepare-IsAddressed c s (committing a) = multi_round_commit-IsAddressed c s a

module _ (out : Outside) (contribute_bytes : Text → Option Bytes) (cls : ProjectionClass MultiRound)
    (send : Envelope → Option AuthConfig → Reply) where
  perform-IsOwn :
      (lawful : IsLawful cls) (c : Call) (s : Session MultiRound) (a : Action)
      → AllOf (IsOwn cls lawful send s) s.projection.transcript
      → AllOf
          (IsOwn cls lawful send s)
          (perform out contribute_bytes cls send c s a).projection.transcript
  unfolding perform
  perform-IsOwn lawful c s a =
      act-IsOwn cls lawful send s _ c.auth (prepare-IsAddressed out contribute_bytes c s a)

  -- What an envelope says of a session does not depend on the session's projection.
  IsOwn-moved :
      (lawful : IsLawful cls) (s : Session MultiRound) (p q : Projection MultiRound)
      (es : List Envelope)
      → AllOf (IsOwn cls lawful send (record s { projection = p })) es
      → AllOf (IsOwn cls lawful send (record s { projection = q })) es
  IsOwn-moved lawful s p q [] h = tt
  IsOwn-moved lawful s p q (e ∷ es) (own, rest) = (
    record {
      mode = own.mode;
      session_id = own.session_id;
      auth = own.auth;
      acknowledged = own.acknowledged;
      sender = own.sender;
    },
    IsOwn-moved lawful s p q es rest,
  )

  -- Where every envelope of a multi-round session helper's transcript was sent and acknowledged, carries
  -- the session's mode and id, and names the sender that the authentication in force expects, if it
  -- expects one, this is so after any sequence of starts, contributions and commits.
  pub run-IsOwn :
      (lawful : IsLawful cls) (calls : List (Call × Action)) (s : Session MultiRound)
      → AllOf (IsOwn cls lawful send s) s.projection.transcript
      → AllOf
          (IsOwn cls lawful send s)
          (run out contribute_bytes cls send calls s).1.projection.transcript
  unfolding run
  run-IsOwn lawful [] s h = h
  run-IsOwn lawful ((c, a) ∷ calls) s h =
      let q = (perform out contribute_bytes cls send c s a).projection in
      IsOwn-moved lawful s q s.projection _ (
        run-IsOwn lawful calls (record s { projection = q })
          (IsOwn-moved lawful s s.projection q q.transcript (perform-IsOwn lawful c s a h)))
