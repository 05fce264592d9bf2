-- ===== src/Lib.antt =====
-- The client library of the Multi-Agent Coordination Protocol (src/macp_sdk).
--
-- A client follows a session by a projection: an object that is fed the envelopes of the session's
-- accepted history and derives from them the state of the session's mode. The base class holds the
-- transcript, the dedup set, the phase, the commitment and the recorded anomalies; each mode's
-- subclass adds its own fields, a handler of the mode's messages, and query helpers.
--
-- Projection.antt: src/macp_sdk/base_projection.py. `BaseProjection` is a record over the type of
-- the subclass's fields, a subclass is a `ProjectionClass`, and `apply_envelope` has its `except`
-- block. The contract of `_apply_mode_message` is Projection/Contract.antt: the theorems on the
-- base class take a lawful class, and each mode proves that it is one.
--
-- Decision.antt, Quorum.antt, Task.antt, Handoff.antt, Proposal.antt: the projections of
-- src/macp_sdk/projections.py, quorum.py, task.py, handoff.py and proposal.py. A branch of a
-- handler is a function `on_...`; a child `Steps` describes what a message can do as a step
-- relation, by which the invariants are proved; `Queries` (for Decision, `Tally`) has the query
-- helpers.
--
-- Envelope.antt: the envelope and the commitment, and Python's `str` methods as parameters.
--
-- Dict.antt: Python's dict, in insertion order. Prelude.antt: shared names and helpers.
--
-- Validation.antt: src/macp_sdk/validation.py. A regular expression is a list of tests on code
-- points, with Python's `$`, which also stands before a final line feed. Validation/Votes.antt
-- relates the votes that pass to the counts of the Decision projection.
--
-- Retry.antt: src/macp_sdk/retry.py, `retry_send` over a client that answers each attempt. A run
-- has an outcome and the list of what it sent and slept. The loop is a recursion on the rounds that
-- `range(1 + max_retries)` has left.
--
-- Threshold.antt: `effective_quorum_threshold` of src/macp_sdk/policy.py, in exact integer
-- arithmetic for whole values. Its answer is what a caller passes to the helpers of
-- Quorum/Queries.antt.
--
-- Text.antt: a text as the list of its code points. Wire.antt: the varints of
-- src/macp_sdk/canonical_json.py and multi_round.py. Json.antt: JSON strings, as
-- src/macp_sdk/commitment_hash.py writes and multi_round.py reads them; Json/Values.antt skips a
-- JSON value. Masks and shifts by numerals are written with `%`, `/` and `*`.
--
-- CommitmentHash.antt: src/macp_sdk/commitment_hash.py. A parsed payload is a record of its fields,
-- of `supersedes` and of the unknown fields; the canonical form is built from its members.
--
-- Contribute.antt: the protobuf reader of src/macp_sdk/multi_round.py, and in
-- Contribute/Decision.antt the legacy JSON reader and the choice between the two. A buffer at a
-- position is the list of what is left. MultiRound.antt: the projection of that file, which reads
-- each Contribute by them.
--
-- Modes.antt: the six projection classes as one family over the base class.
--
-- Auth.antt: src/macp_sdk/auth.py. Builders.antt: src/macp_sdk/envelope.py, with the generated
-- constructors as parameters. Session.antt: src/macp_sdk/base_session.py, over a client that
-- acknowledges an envelope, refuses it or raises; MultiRound/Actions.antt has the helper of the
-- multi-round mode, and a program is a list of its calls.
--
-- Tests.antt: runs on small inputs, and each theorem at an input.
--
-- A method that may raise returns an outcome beside the state that it leaves, so the state after an
-- exception is modelled too. `feed` applies a list of envelopes and goes on after an exception. An
-- envelope has a field for the object's identity, which `is` compares. A float is its bit pattern
-- where it is only copied; `majority_winner` compares `count / non_abstain > 0.5` exactly, which
-- the rounded quotient does for counts below 2 ** 53. Loops are recursions on lists, on what a
-- range has left, or on the number that they divide. The loops that scan a buffer have fuel: one
-- round for each byte or character that is left (one more where a last round only finds the end),
-- which is enough since every round takes one at least. So that `none`, a malformed input, is not
-- confused with fuel that has run out, Contribute/Runs.antt, Contribute/Objects.antt and
-- Json/Runs.antt describe these loops as relations without fuel, a derivation being a finite run, and
-- relate the functions to them.
--
-- Parameters are the generated protobuf parsers (`none` is a `DecodeError`), the unknown fields
-- and the field names of the installed generated classes, UTF-8, SHA-256, and `upper`, `lower`,
-- `strip` and `repr` of Python's `str`, `str` of a number, which numbers can be made floats,
-- `json.loads` with the errors it raises, what a policy asks of a float value, the float
-- arithmetic of the retry delay, and `time.sleep`. Log lines, the deprecated aliases and objects
-- that a caller mutates behind a projection's back are not modelled. Nor are
-- `validate_confidence`, the session helpers of the five standard modes, the transport (gRPC), the
-- agent runtime, the policy builders, the receipts, and the canonical JSON but for its varints.
pub mod Auth
pub mod Builders
pub mod CommitmentHash
pub mod Contribute
pub mod Decision
pub mod Dict
pub mod Envelope
pub mod Handoff
pub mod Json
pub mod Modes
pub mod MultiRound
pub mod Prelude
pub mod Projection
pub mod Proposal
pub mod Quorum
pub mod Retry
pub mod Session
pub mod Task
pub mod Tests
pub mod Text
pub mod Threshold
pub mod Validation
pub mod Wire
