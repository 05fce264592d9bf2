-- ===== src/MultiRound/Progress.antt =====
-- A multi-round session whose participants all come to contribute one value converges on it.
use macp_sdk_python.Dict
use macp_sdk_python.Dict.{Dict, get}
use macp_sdk_python.Envelope.{Envelope}
use macp_sdk_python.MultiRound.{MultiRound, add_value, differs, is_participant, on_contribute}
use macp_sdk_python.MultiRound.Consensus.{checked-common_value, common_value, holds}
use macp_sdk_python.MultiRound.Holders.{
  all-contains, common_value-all, common_value_of_all, hold_if, hold_if-add_value, hold_if-stranger,
  holds-add_value, holds_unique,
}
use macp_sdk_python.MultiRound.Recorded.{on_contribute-checked}
use macp_sdk_python.MultiRound.Steps.{checked}
use macp_sdk_python.Prelude.{
  Bool-cases, List, Option-cases, String, [], all, ap, arith, contains, eq_refl, false, inl, inr,
  is_empty, none, not, refl, some, subst, sym, true, ◌||◌, ◌∙◌, ◌∷◌, ◌≡◌,
}
use macp_sdk_python.Projection.{Projection}
use macp_sdk_python.Text.{Text}

-- The contributions of one value by the envelopes' senders, as they reach the handler.
abbrev pub rally : Text → List Envelope → Projection MultiRound → Projection MultiRound
rally v [] p = p
rally v (e ∷ es) p = rally v es (on_contribute e (some v) p)

abbrev pub senders : List Envelope → List String
senders [] = []
senders (e ∷ es) = e.sender ∷ senders es

-- Where the session is while its participants come to contribute the value; `seen` have done so.
data Rallied (v : Text) (ps seen : List String) (s : MultiRound) : Type 0 where
  agreed_on : s.converged ≡ true → s.converged_value ≡ some v → Rallied v ps seen s
  pending :
      s.participants ≡ ps
      → s.converged ≡ false
      → common_value ps s.contributions ≡ none
      → hold_if v s.contributions seen ps ≡ true
      → Rallied v ps seen s

-- After the test of convergence, for a state in which the last sender holds the value.
checked-Rallied :
    (v : Text) (ps seen : List String) (sender : String) (s : MultiRound)
    → s.participants ≡ ps
    → s.converged ≡ false
    → contains sender ps ≡ true
    → holds v s.contributions sender ≡ true
    → hold_if v s.contributions seen ps ≡ true
    → Rallied v ps seen (checked s)
checked-Rallied v ps seen sender s roster n entitled held all_held =
    elim (Option-cases (common_value ps s.contributions)) [
      | inl u ↦
          let stays : checked s ≡ s = ground (arith, checked-common_value s, roster, u) in
          subst (Rallied v ps seen) (sym stays) (pending roster n u all_held)
      | inr (w, y) ↦
          let moves : checked s ≡ record s { converged = true; converged_value = some w } =
            ground (arith, checked-common_value s, roster, y) in
          let everyone = common_value-all ps s.contributions w y in
          let equal : w ≡ v =
            holds_unique w v s.contributions sender
              (all-contains (holds w s.contributions) ps sender everyone entitled) held in
          subst (Rallied v ps seen) (sym moves) (agreed_on refl (ap (λ t. some t) equal))
    ]

add_value-keeps :
    (sender : String) (v : Text) (s : MultiRound)
    → ((add_value sender v s).participants ≡ s.participants)
      × ((add_value sender v s).converged ≡ s.converged)
unfolding add_value
add_value-keeps sender v s = elim (Bool-cases (differs (Dict.get sender s.contributions) v)) [
  | inl y ↦ rw y (refl, refl)
  | inr n ↦ rw n (refl, refl)
]

refused_state :
    (e : Envelope) (v : Text) (p : Projection MultiRound)
    → (p.state.converged || not (is_participant e.sender p.state)) ≡ true
    → (on_contribute e (some v) p).state ≡ p.state
unfolding on_contribute is_participant
refused_state e v p h = ground (arith, h)

on_contribute-Rallied :
    (v : Text) (ps seen : List String) (e : Envelope) (p : Projection MultiRound)
    → is_empty ps ≡ false
    → Rallied v ps seen p.state
    → Rallied v ps (e.sender ∷ seen) (on_contribute e (some v) p).state
unfolding is_participant
on_contribute-Rallied v ps seen e p some_ps (agreed_on y value) =
    subst (Rallied v ps (e.sender ∷ seen)) (sym (refused_state e v p (ground (arith, y))))
      (agreed_on y value)
on_contribute-Rallied v ps seen e p some_ps (pending roster n u held) =
    elim (Bool-cases (contains e.sender ps)) [
      | inr stranger ↦
          let refuses : (p.state.converged || not (is_participant e.sender p.state)) ≡ true =
            ground
              (arith, n, ap is_empty roster, ap (contains e.sender) roster, stranger, some_ps) in
          subst (Rallied v ps (e.sender ∷ seen)) (sym (refused_state e v p refuses)) (
            pending roster n u
              (hold_if-stranger v p.state.contributions e.sender seen ps stranger held))
      | inl entitled ↦
          let admits : is_participant e.sender p.state ≡ true =
            ground (arith, ap (contains e.sender) roster, entitled) in
          let (names, flag) = add_value-keeps e.sender v p.state in
          let own : holds v (add_value e.sender v p.state).contributions e.sender ≡ true =
            ground (arith, holds-add_value v p.state e.sender e.sender, eq_refl e.sender) in
          subst (Rallied v ps (e.sender ∷ seen)) (sym (on_contribute-checked e v p n admits)) (
            checked-Rallied v ps (e.sender ∷ seen) e.sender (add_value e.sender v p.state)
              (names ∙ roster) (flag ∙ n) entitled own
              (hold_if-add_value v p.state e.sender seen ps held))
    ]

rally-Rallied :
    (v : Text) (ps seen : List String) (es : List Envelope) (p : Projection MultiRound)
    → is_empty ps ≡ false
    → Rallied v ps seen p.state
    → (all_seen : List String) × Rallied v ps all_seen (rally v es p).state
      × ((n : String) → contains n all_seen ≡ (contains n seen || contains n (senders es)))
rally-Rallied v ps seen [] p h r = (seen, r, λ n. ground arith)
rally-Rallied v ps seen (e ∷ es) p h r =
    let (all_seen, end, members) =
      rally-Rallied v ps (e.sender ∷ seen) es (on_contribute e (some v) p) h
        (on_contribute-Rallied v ps seen e p h r) in
    (all_seen, end, λ n. ground (arith, members n))

everyone_holds :
    (v : Text) (d : Dict.Dict Text) (seen members ps : List String)
    → ((n : String) → contains n seen ≡ contains n members)
    → all (λ n. contains n members) ps ≡ true
    → hold_if v d seen ps ≡ true
    → all (holds v d) ps ≡ true
everyone_holds v d seen members [] same_members present h = refl
everyone_holds v d seen members (p ∷ ps) same_members present h = ground (
  arith,
  same_members p,
  present,
  h,
  everyone_holds v d seen members ps same_members (ground (arith, present)) (ground (arith, h)),
)

hold_if_none : (v : Text) (d : Dict.Dict Text) (ps : List String) → hold_if v d [] ps ≡ true
hold_if_none v d [] = refl
hold_if_none v d (p ∷ ps) = ground (arith, hold_if_none v d ps)

-- A multi-round session that has not converged, and whose participants have no common value yet,
-- converges once contributions of one value, by every participant at least, have reached the handler,
-- and it converges on that value.
pub rally-converges :
    (v : Text) (es : List Envelope) (p : Projection MultiRound)
    → p.state.converged ≡ false
    → common_value p.state.participants p.state.contributions ≡ none
    → is_empty p.state.participants ≡ false
    → all (λ n. contains n (senders es)) p.state.participants ≡ true
    → ((rally v es p).state.converged ≡ true) × ((rally v es p).state.converged_value ≡ some v)
rally-converges v es p unconverged undecided some_names present =
    let ps = p.state.participants in
    let (all_seen, end, members) =
      rally-Rallied v ps [] es p some_names
        (pending refl unconverged undecided (hold_if_none v p.state.contributions ps)) in
    converges all_seen members end
  where
    converges :
        (all_seen : List String)
        → ((n : String) → contains n all_seen ≡ contains n (senders es))
        → Rallied v p.state.participants all_seen (rally v es p).state
        → ((rally v es p).state.converged ≡ true) × ((rally v es p).state.converged_value ≡ some v)
    converges all_seen members (agreed_on y value) = (y, value)
    converges all_seen members (pending roster n u held) =
        let everyone =
          everyone_holds v _ all_seen (senders es) p.state.participants members present held in
        cc (common_value_of_all p.state.participants _ v some_names everyone, u)
