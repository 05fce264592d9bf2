-- ===== src/MultiRound/Lawful.antt =====
-- The multi-round handler keeps the contract of `_apply_mode_message`.
use macp_sdk_python.Contribute.Decision.{contribute_value}
use macp_sdk_python.Envelope.{Bytes, Envelope}
use macp_sdk_python.MultiRound.{
  MultiRound, MultiRoundParsers, add_value, apply_mode_message, check_convergence, is_missing,
  on_contribute, on_start, settle,
}
use macp_sdk_python.Prelude.{
  List, Option, [], any, contains, is_empty, none, not, refl, some, ◌&&◌, ◌∷◌,
}
use macp_sdk_python.Projection.{Projection}
use macp_sdk_python.Projection.Contract.{
  Keeps, Keeps-if, Keeps-refl, Keeps-set_phase, Keeps-state, Obeys, Obeys-returned, Obeys-when_type,
  Obeys-with_payload,
}
use macp_sdk_python.Text.{Text}

settle-Keeps :
    (e : Envelope) (vs : List Text) (p q : Projection MultiRound)
    → Keeps e p q
    → Keeps e p (settle vs q)
unfolding settle
settle-Keeps e [] p q k = k
settle-Keeps e (v ∷ []) p q k = Keeps-set_phase e "Converged" p _ refl (record {
  transcript = k.transcript;
  seen = k.seen;
  commitment = k.commitment;
  committed = k.committed;
  logs = k.logs;
})
settle-Keeps e (v ∷ w ∷ vs) p q k = k

check_convergence-Keeps :
    (e : Envelope) (p q : Projection MultiRound) → Keeps e p q → Keeps e p (check_convergence q)
unfolding check_convergence
check_convergence-Keeps e p q k = Keeps-if e (is_empty q.state.participants) p q _ k (
    Keeps-if e (any (is_missing q.state.contributions) q.state.participants) p q _ k
      (settle-Keeps e _ p q k))

on_contribute-Keeps :
    (e : Envelope) (o : Option Text) (p : Projection MultiRound) → Keeps e p (on_contribute e o p)
unfolding on_contribute
on_contribute-Keeps e none p = Keeps-refl e p
on_contribute-Keeps e (some value) p = Keeps-if e p.state.converged p p _ (Keeps-refl e p) (
    Keeps-if e (not (is_empty p.state.participants) && not (contains e.sender p.state.participants))
      p p _ (Keeps-refl e p)
      (check_convergence-Keeps e p _ (Keeps-state e p (add_value e.sender value p.state))))

-- Every multi-round message leaves the base class's fields to the base class, changes nothing at all if
-- its payload does not parse, and neither enters nor leaves the phase "Committed".
pub multi_round_projection-IsLawful :
    (decode : Bytes → Option Text) (encode : Text → Bytes) (parse : MultiRoundParsers)
    (e : Envelope) (p : Projection MultiRound)
    → Obeys e p (apply_mode_message decode encode parse e p)
unfolding apply_mode_message on_start
multi_round_projection-IsLawful decode encode parse e p =
    Obeys-when_type e _ p _ _
      (Obeys-with_payload e _ (on_start e) p
        (λ x. Keeps-set_phase e "Contributing" p _ refl (Keeps-state e p _)))
      (Obeys-when_type e _ p _ _
        (Obeys-returned e p _ (on_contribute-Keeps e (contribute_value decode encode e.payload) p))
        (Obeys-returned e p p (Keeps-refl e p)))
