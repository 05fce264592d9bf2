-- ===== src/MultiRound/Rounds.antt =====
-- The rounds of a multi-round session, and what stays once it has converged.
use macp_sdk_python.Dict
use macp_sdk_python.Dict
use macp_sdk_python.Dict.{Dict, get, keys, values}
use macp_sdk_python.Dict.Keys.{length-keys-set-bound}
use macp_sdk_python.Envelope.{Bytes, Envelope}
use macp_sdk_python.MultiRound.{
  MultiRound, MultiRoundParsers, add_value, differs, multi_round_projection,
}
use macp_sdk_python.MultiRound.Consensus.{checked-common_value, common_value}
use macp_sdk_python.MultiRound.Lawful.{multi_round_projection-IsLawful}
use macp_sdk_python.MultiRound.Steps.{
  Step, apply_mode_message-Step, checked, contributed, same, started,
}
use macp_sdk_python.Prelude.{
  Bool-cases, List, Option, Option-cases, String, [], arith, inl, inr, length, none, refl, suc,
  true, ℕ, ◌+◌, ◌∷◌, ◌≡◌, ◌≤◌,
}
use macp_sdk_python.Projection.{Projection, apply_envelope, feed}
use macp_sdk_python.Projection.Replay.{apply_relation, feed_state_induction}
use macp_sdk_python.Retry.{rounds}
use macp_sdk_python.Text.{Text}

-- The values and the outcome have not changed since `s`, in which the session had converged.
abbrev pub Frozen : MultiRound → MultiRound → Type 0
Frozen s t =
    (t.converged ≡ true)
    × (t.converged_value ≡ s.converged_value)
    × (t.contributions ≡ s.contributions)
    × (t.round ≡ s.round)

Step-Frozen :
    {e : Envelope} (r : MultiRound) {s t : MultiRound} → Step e s t → Frozen r s → Frozen r t
Step-Frozen r (same h) k = rw h k
Step-Frozen r (started payload _ h) k = rw h k
Step-Frozen r (contributed value n _ h) k = cc (n, k.0)

-- The fields after `es` were fed to a projection that was in the state `p`.
abbrev pub fields_after :
    (Bytes → Option Text)
    → (Text → Bytes)
    → MultiRoundParsers
    → List Envelope
    → Projection MultiRound
    → MultiRound
fields_after decode encode parse es p =
    (feed (multi_round_projection decode encode parse [] none) es p).state

-- Once a session has converged, no sequence of envelopes undoes that, or changes the value on which it
-- converged, any participant's latest contribution or the round.
pub feed-Frozen :
    (decode : Bytes → Option Text) (encode : Text → Bytes) (parse : MultiRoundParsers)
    (es : List Envelope) (p : Projection MultiRound)
    → p.state.converged ≡ true
    → Frozen p.state (fields_after decode encode parse es p)
feed-Frozen decode encode parse es p h =
    feed_state_induction (multi_round_projection decode encode parse [] none)
      (multi_round_projection-IsLawful decode encode parse) (Frozen p.state)
      (λ e q k. Step-Frozen p.state (apply_mode_message-Step e q decode encode parse) k) es p
      (h, refl, refl, refl)

-- The test of convergence leaves the round and the contributions alone.
pub checked-keeps :
    (s : MultiRound) → ((checked s).round ≡ s.round) × ((checked s).contributions ≡ s.contributions)
checked-keeps s = elim (Option-cases (common_value s.participants s.contributions)) [
  | inl n ↦ (ground (arith, checked-common_value s, n), ground (arith, checked-common_value s, n))
  | inr (v, y) ↦
      (ground (arith, checked-common_value s, y), ground (arith, checked-common_value s, y))
]

-- From `s` to `t` at most `n` rounds are taken, and a new contributor takes one.
abbrev pub Advances : ℕ → MultiRound → MultiRound → Type 0
Advances n s t =
    (s.round ≤ t.round)
    × (t.round ≤ s.round + n)
    × (length (Dict.keys t.contributions) + s.round ≤ length (Dict.keys s.contributions) + t.round)

add_value-Advances :
    (sender : String) (value : Text) (s : MultiRound) → Advances 1 s (add_value sender value s)
unfolding add_value
add_value-Advances sender value s =
    elim (Bool-cases (differs (Dict.get sender s.contributions) value)) [
      | inl y ↦ rw y (
        omega arith,
        omega arith,
        omega (arith, length-keys-set-bound sender value s.contributions),
      )
      | inr n ↦ rw n (omega arith, omega arith, omega arith)
    ]

Step-Advances : {e : Envelope} {s t : MultiRound} → Step e s t → Advances 1 s t
Step-Advances (same h) = rw h (omega arith, omega arith, omega arith)
Step-Advances (started payload _ h) = rw h (omega arith, omega arith, omega arith)
Step-Advances {e} {s} (contributed value _ _ h) =
    let (rounds, values) = checked-keeps (add_value e.sender value s) in
    rw h (rw (rounds, values) (add_value-Advances e.sender value s))

Advances-append :
    (n : ℕ) (r s t : MultiRound) → Advances 1 r s → Advances n s t → Advances (suc n) r t
Advances-append n r s t h k = (omega (arith, h, k), omega (arith, h, k), omega (arith, h, k))

-- The round never falls, an envelope advances it by one at most, and it advances with every new
-- contributor: it grows at least as much as the number of senders with a contribution.
pub feed-Advances :
    (decode : Bytes → Option Text) (encode : Text → Bytes) (parse : MultiRoundParsers)
    (es : List Envelope) (p : Projection MultiRound)
    → Advances (length es) p.state (fields_after decode encode parse es p)
unfolding feed
feed-Advances decode encode parse [] p = (omega arith, omega arith, omega arith)
feed-Advances decode encode parse (e ∷ es) p =
    let cls = multi_round_projection decode encode parse [] none in
    let q = (apply_envelope cls e p).1 in
    Advances-append (length es) p.state q.state (fields_after decode encode parse es q)
      (apply_relation cls (multi_round_projection-IsLawful decode encode parse) (Advances 1)
        (λ s. (omega arith, omega arith, omega arith)) e
        (λ r. Step-Advances (apply_mode_message-Step e r decode encode parse)) p)
      (feed-Advances decode encode parse es q)
