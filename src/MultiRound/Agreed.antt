-- ===== src/MultiRound/Agreed.antt =====
-- A multi-round session has converged exactly when its participants agree.
use macp_sdk_python.Dict
use macp_sdk_python.Dict.{Dict, get}
use macp_sdk_python.Envelope.{Bytes, Envelope}
use macp_sdk_python.MultiRound.{
  MultiRound, MultiRoundParsers, add_value, differs, multi_round_projection,
}
use macp_sdk_python.MultiRound.Consensus.{checked-common_value, common_value}
use macp_sdk_python.MultiRound.Lawful.{multi_round_projection-IsLawful}
use macp_sdk_python.MultiRound.Rounds.{fields_after}
use macp_sdk_python.MultiRound.Steps.{
  Step, apply_mode_message-Step, checked, contributed, same, started,
}
use macp_sdk_python.Prelude.{
  Bool, Bool-cases, List, Option, Option-cases, String, [], any, arith, eq_iff, false, inl, inr,
  none, refl, some, subst, sym, true, ◌==◌, ◌∙◌, ◌∷◌, ◌≡◌,
}
use macp_sdk_python.Projection.{Projection, feed}
use macp_sdk_python.Projection.Replay.{apply_state_induction}
use macp_sdk_python.Text.{Text}

abbrev is_some : Option Text → Bool
is_some none = false
is_some (some v) = true

-- The session has converged exactly if the participants have a common value, and on that value.
pub record Agreed (s : MultiRound) : Type 0 where
  pub value : s.converged_value ≡ common_value s.participants s.contributions
  pub flag : s.converged ≡ is_some (common_value s.participants s.contributions)

undecided : (s : MultiRound) → Agreed s → s.converged ≡ false → s.converged_value ≡ none
undecided s a n = elim (Option-cases (common_value s.participants s.contributions)) [
  | inl none_common ↦ a.value ∙ none_common
  | inr (v, y) ↦ cc (a.flag, n, y)
]

checked-Agreed :
    (s : MultiRound) → s.converged ≡ false → s.converged_value ≡ none → Agreed (checked s)
checked-Agreed s n no_value = elim (Option-cases (common_value s.participants s.contributions)) [
  | inl u ↦
      let stays : checked s ≡ s = ground (arith, checked-common_value s, u) in
      subst Agreed (sym stays) (record { value = no_value ∙ sym u; flag = ground (arith, n, u) })
  | inr (v, y) ↦
      let moves : checked s ≡ record s { converged = true; converged_value = some v } =
        ground (arith, checked-common_value s, y) in
      subst Agreed (sym moves) (record { value = sym y; flag = ground (arith, y) })
]

kept_fields :
    (sender : String) (value : Text) (s : MultiRound)
    → ((add_value sender value s).converged ≡ s.converged)
      × ((add_value sender value s).converged_value ≡ s.converged_value)
unfolding add_value
kept_fields sender value s = elim (Bool-cases (differs (Dict.get sender s.contributions) value)) [
  | inl y ↦ rw y (refl, refl)
  | inr n ↦ rw n (refl, refl)
]

Step-Agreed :
    {e : Envelope} {s t : MultiRound}
    → Step e s t
    → (e.message_type == "SessionStart") ≡ false
    → Agreed s
    → Agreed t
Step-Agreed (same h) _ a = subst Agreed (sym h) a
Step-Agreed {e} (started payload y h) n a = cc (n, (eq_iff e.message_type "SessionStart").1 y)
Step-Agreed {e} {s} (contributed value n _ h) _ a =
    let (c, v) = kept_fields e.sender value s in
    subst Agreed (sym h) (checked-Agreed (add_value e.sender value s) (c ∙ n) (v ∙ undecided s a n))

abbrev pub is_start : Envelope → Bool
is_start e = e.message_type == "SessionStart"

-- While no further SessionStart comes, a session that has converged exactly on the participants' common
-- value, if they have one, stays so: it has converged if and only if every participant has contributed
-- and the latest contributions are all equal, and `converged_value` is then that contribution.
pub feed-Agreed :
    (decode : Bytes → Option Text) (encode : Text → Bytes) (parse : MultiRoundParsers)
    (es : List Envelope) (p : Projection MultiRound)
    → any is_start es ≡ false
    → Agreed p.state
    → Agreed (fields_after decode encode parse es p)
unfolding feed
feed-Agreed decode encode parse [] p n a = a
feed-Agreed decode encode parse (e ∷ es) p n a =
    feed-Agreed decode encode parse es _ (ground (arith, n)) (
      apply_state_induction (multi_round_projection decode encode parse [] none)
        (multi_round_projection-IsLawful decode encode parse) Agreed e
        (λ q b. Step-Agreed (apply_mode_message-Step e q decode encode parse) (ground (arith, n)) b)
        p a)
