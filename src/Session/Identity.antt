-- ===== src/Session/Identity.antt =====
-- What the envelope of a session says of the session and of its sender.
use macp_sdk_python.Auth.{AuthConfig, or_option}
use macp_sdk_python.Builders.{
  Attempt, Fresh, Outside, SessionStart, bind, build_envelope, default_to, done, guarded,
  identity_mismatch, overflowed, proto_error, refused,
}
use macp_sdk_python.Envelope.{Bytes, CommitmentPayload, Envelope}
use macp_sdk_python.Prelude.{
  Bool, Bool-cases, Option, String, false, if◌then◌else◌, inl, inr, none, refl, some, subst, true,
  ◌==◌, ◌≡◌,
}
use macp_sdk_python.Session.{
  Session, auth_of, check_sender, commit_envelope, envelope, expected_of, sender_for,
  sender_hint_of, start_envelope,
}
use macp_sdk_python.Validation.{Check, overflow_error, passed, session_error}

-- The envelope's sender is the one that `expected_sender` names, if it names one.
abbrev pub is_expected : Option String → String → Bool
is_expected none sender = true
is_expected (some expected) sender = sender == expected

-- The envelope belongs to the session, and names the expected sender.
pub record IsAddressed {S : Type 0} (s : Session S) (auth : Option AuthConfig) (e : Envelope)
    : Type 0 where
  pub mode : e.mode ≡ s.mode
  pub session_id : e.session_id ≡ s.session_id
  pub sender : is_expected (expected_of (auth_of s auth)) e.sender ≡ true

-- `P` holds of what a call returns, if it returns.
abbrev pub Yields : {A : Type 0} → (A → Type 0) → Attempt A → Type 0
Yields P (done a) = P a
Yields P refused = Unit
Yields P (identity_mismatch _ _) = Unit
Yields P overflowed = Unit
Yields P proto_error = Unit

pub Yields-bind :
    {A B : Type 0} (P : B → Type 0) (m : Attempt A) (f : A → Attempt B)
    → ((a : A) → Yields P (f a))
    → Yields P (bind m f)
unfolding bind
Yields-bind P (done a) f h = h a
Yields-bind P refused f h = tt
Yields-bind P (identity_mismatch _ _) f h = tt
Yields-bind P overflowed f h = tt
Yields-bind P proto_error f h = tt

pub Yields-guarded :
    {A : Type 0} (P : A → Type 0) (c : Check Unit) (m : Attempt A)
    → Yields P m
    → Yields P (guarded c m)
unfolding guarded
Yields-guarded P (passed _) m h = h
Yields-guarded P (session_error _) m h = tt
Yields-guarded P overflow_error m h = tt

pub Yields-unless :
    {A : Type 0} (P : A → Type 0) (b : Bool) (m : Attempt A)
    → Yields P m
    → Yields P (if b then refused else m)
Yields-unless P true m h = tt
Yields-unless P false m h = h

-- The same, where what holds of a step matters for the next.
pub Yields-bind_as :
    {A B : Type 0} (P : B → Type 0) (m : Attempt A) (f : A → Attempt B)
    → ((a : A) → m ≡ done a → Yields P (f a))
    → Yields P (bind m f)
unfolding bind
Yields-bind_as P (done a) f h = h a refl
Yields-bind_as P refused f h = tt
Yields-bind_as P (identity_mismatch _ _) f h = tt
Yields-bind_as P overflowed f h = tt
Yields-bind_as P proto_error f h = tt

pub Yields-unless_as :
    {A : Type 0} (P : A → Type 0) (b : Bool) (m : Attempt A)
    → (b ≡ false → Yields P m)
    → Yields P (if b then refused else m)
Yields-unless_as P true m h = tt
Yields-unless_as P false m h = h refl

pub Yields-done :
    {A : Type 0} (P : A → Type 0) (m : Attempt A) (a : A) → Yields P m → m ≡ done a → P a
Yields-done P m a h e = subst (Yields P) e h

module _ {S : Type 0} (s : Session S) (sender : Option String) (auth : Option AuthConfig) where
  abbrev resolved : String
  resolved = default_to "" (or_option sender (sender_hint_of (auth_of s auth)))

  addressed :
      (o : Option String) (fresh : Fresh) (message_type : String) (payload : Bytes)
      → expected_of (auth_of s auth) ≡ o
      → Yields (IsAddressed s auth) (
          bind
            (check_sender o resolved)
            λ r. done (build_envelope fresh s.mode message_type s.session_id r payload))
  unfolding build_envelope check_sender bind
  addressed none fresh message_type payload h = record {
    mode = refl;
    session_id = refl;
    sender = rw h refl;
  }
  addressed (some expected) fresh message_type payload h =
      elim (Bool-cases (resolved == expected)) [
        | inl y ↦ rw y (record { mode = refl; session_id = refl; sender = rw h y })
        | inr n ↦ rw n tt
      ]

  pub envelope-IsAddressed :
      (fresh : Fresh) (message_type : String) (payload : Bytes)
      → Yields (IsAddressed s auth) (envelope fresh s message_type payload sender auth)
  unfolding envelope sender_for
  envelope-IsAddressed fresh message_type payload = addressed _ fresh message_type payload refl

module _ {S : Type 0} (out : Outside) (fresh : Fresh) (s : Session S) (sender : Option String)
    (auth : Option AuthConfig) where
  pub start_envelope-IsAddressed :
      (start : SessionStart)
      → Yields (IsAddressed s auth) (start_envelope out fresh s start sender auth)
  unfolding start_envelope
  start_envelope-IsAddressed start = Yields-guarded (IsAddressed s auth) _ _ (
      Yields-bind (IsAddressed s auth) _ _
        (envelope-IsAddressed s sender auth fresh "SessionStart"))

  -- The Commitment of a session helper is addressed to its session, in its mode, and its sender is the
  -- expected one, if the authentication in force expects one.
  pub commit_envelope-IsAddressed :
      (given : CommitmentPayload) (commitment_id : Option String) (outcome_positive : Option Bool)
      → Yields
          (IsAddressed s auth)
          (commit_envelope out fresh s given commitment_id outcome_positive sender auth)
  unfolding commit_envelope
  commit_envelope-IsAddressed given commitment_id outcome_positive =
      Yields-bind (IsAddressed s auth) _ _ (envelope-IsAddressed s sender auth fresh "Commitment")
