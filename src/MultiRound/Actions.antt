-- ===== src/MultiRound/Actions.antt =====
-- src/macp_sdk/multi_round.py: `_MultiRoundActions` and `MultiRoundSession`. The asyncio twin calls the
-- same builders.
use macp_sdk_python.Auth.{AuthConfig}
use macp_sdk_python.Builders.{
  Attempt, Fresh, Outside, SessionStart, bind, build_commitment_payload, built, done, guarded,
  has_suffix, negative_suffixes, positive_suffixes, refused,
}
use macp_sdk_python.CommitmentHash.{CommitmentRef}
use macp_sdk_python.Envelope.{Bytes, CommitmentPayload, Envelope}
use macp_sdk_python.MultiRound.{MultiRound, is_participant}
use macp_sdk_python.Prelude.{
  Bool, List, Option, String, [], false, if◌then◌else◌, is_empty, none, not, some, true, ◌&&◌, ◌++◌,
  ◌==◌, ◌∷◌,
}
use macp_sdk_python.Projection.{ProjectionClass}
use macp_sdk_python.Session.{
  Acted, Reply, Session, act, envelope, sender_for, start_envelope, with_versions,
}
use macp_sdk_python.Text.{Text}
use macp_sdk_python.Validation.{Check, passed, validate_required_field}

-- The choices of one call: its fresh names, and the `sender` and `auth` arguments.
pub record Call : Type 0 where
  pub fresh : Fresh
  pub sender : Option String
  pub auth : Option AuthConfig

-- The arguments of `commit`; the versions in `given` are the session's own.
pub record CommitArguments : Type 0 where
  pub given : CommitmentPayload
  pub commitment_id : Option String
  pub outcome_positive : Option Bool
  pub supersedes : Option CommitmentRef

pub data Action : Type 0 where
  starting : SessionStart → Action
  contributing : Text → Action
  committing : CommitArguments → Action

-- `if initiator and resolved and resolved != initiator`
unfoldable pub is_other_than : Option String → String → Bool
is_other_than none resolved = false
is_other_than (some initiator) resolved =
    not (initiator == "") && not (resolved == "") && not (resolved == initiator)

-- An explicit outcome that the suffix of the action contradicts.
unfoldable pub contradicts : Option Bool → String → Bool
unfolding has_suffix
contradicts none action = false
contradicts (some true) action = has_suffix negative_suffixes action
contradicts (some false) action = has_suffix positive_suffixes action

abbrev when_given : {A : Type 0} → Option A → (A → Check Unit) → Check Unit
when_given none check = passed tt
when_given (some a) check = check a

-- `contribute_bytes` is the generated `ContributePayload(value=...).SerializeToString()`.
module _ (out : Outside) (contribute_bytes : Text → Option Bytes) where
  unfoldable pub multi_round_start : Call → Session MultiRound → SessionStart → Attempt Envelope
  unfolding start_envelope
  multi_round_start c s start =
      if not (s.mode_version == "1.0.0")
      then refused
      else start_envelope out c.fresh s start c.sender c.auth

  -- `_contribute_envelope`
  unfoldable pub contribute_envelope : Call → Session MultiRound → Text → Attempt Envelope
  unfolding envelope sender_for is_participant
  contribute_envelope c s value =
      if is_empty value
      then refused
      else if s.projection.state.converged
      then refused
      else bind (sender_for s c.sender c.auth) λ resolved.
        if not (resolved == "") && not (is_participant resolved s.projection.state)
        then refused
        else bind (built (contribute_bytes value))
            λ payload. envelope c.fresh s "Contribute" payload c.sender c.auth

  -- The checks of the arguments of `commit`.
  unfoldable pub checked_arguments : CommitArguments → Attempt Unit
  unfolding contradicts
  checked_arguments a =
      let require = validate_required_field out.py out.show out.converts in
      guarded (when_given a.commitment_id (require "commitment_id")) (
        guarded (require "action" a.given.action) (
          guarded (require "authority_scope" a.given.authority_scope) (
            guarded (require "reason" a.given.reason) (
              if contradicts a.outcome_positive a.given.action
              then refused
              else guarded
                  (when_given a.supersedes (λ ref. require "supersedes.session_id" ref.session_id))
                  (done tt)))))

  -- `_multi_round_commit_envelope`
  unfoldable pub multi_round_commit : Call → Session MultiRound → CommitArguments → Attempt Envelope
  unfolding envelope sender_for is_other_than checked_arguments
  multi_round_commit c s a = bind (sender_for s c.sender c.auth) λ resolved.
      if is_other_than s.projection.state.initiator resolved
      then refused
      else bind (checked_arguments a) λ _.
        bind
          (build_commitment_payload out c.fresh (with_versions s a.given) a.commitment_id
            a.outcome_positive a.supersedes)
          λ payload. envelope c.fresh s "Commitment" payload c.sender c.auth

  unfoldable pub prepare : Call → Session MultiRound → Action → Attempt Envelope
  unfolding multi_round_start contribute_envelope multi_round_commit
  prepare c s (starting start) = multi_round_start c s start
  prepare c s (contributing value) = contribute_envelope c s value
  prepare c s (committing a) = multi_round_commit c s a

  module _ (cls : ProjectionClass MultiRound) (send : Envelope → Option AuthConfig → Reply) where
    -- `start`, `contribute` and `commit`
    unfoldable pub perform : Call → Session MultiRound → Action → Acted MultiRound
    unfolding prepare act
    perform c s a = act cls send s (prepare c s a) c.auth

    -- The calls of a program, one after the other; an exception does not end it.
    unfoldable pub run :
        List (Call × Action) → Session MultiRound → List Envelope × Session MultiRound
    unfolding perform
    run [] s = ([], s)
    run ((c, a) ∷ calls) s =
        let first = perform c s a in
        let later = run calls (record s { projection = first.projection }) in
        (first.sent ++ later.0, later.1)
