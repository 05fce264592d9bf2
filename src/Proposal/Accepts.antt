-- ===== src/Proposal/Accepts.antt =====
-- Acceptance as a relation between senders and proposals (RFC-MACP-0008 §5 rule 5).
use macp_sdk_python.Dict
use macp_sdk_python.Dict.{Dict, get, get-set, values}
use macp_sdk_python.Dict.Keys.{UniqueKeys, UniqueKeys-set, has-keys}
use macp_sdk_python.Envelope.{Envelope}
use macp_sdk_python.Prelude.{
  Bool-cases, List, Option, String, [], ap, arith, contains, contains-from_keys, eq_iff, eq_refl,
  false, from_keys, if◌then◌else◌, inl, inr, is_empty, none, refl, some, sym, true, ◌++◌, ◌==◌, ◌↔◌,
  ◌∙◌, ◌∷◌, ◌≡◌,
}
use macp_sdk_python.Projection.Replay.{feed_state_induction}
use macp_sdk_python.Proposal.{
  Negotiation, ProposalAcceptRecord, ProposalParsers, negotiation_after, proposal_projection,
}
use macp_sdk_python.Proposal.Lawful.{proposal_projection-IsLawful}
use macp_sdk_python.Proposal.Queries.{accepted_proposal, the_only}
use macp_sdk_python.Proposal.Steps.{
  Step, accepted, apply_mode_message-Step, ended, opened, rejected, same, withdrawn,
}

-- The proposal of a sender's last Accept in the audit trail
pub latest_by : String → List ProposalAcceptRecord → Option String
latest_by sender [] = none
latest_by sender (a ∷ rest) =
    let later = latest_by sender rest in
    elim later [
      | some pid ↦ some pid
      | none ↦ if a.sender == sender then some a.proposal_id else none
    ]

latest_by-append :
    (sender : String) (l : List ProposalAcceptRecord) (a : ProposalAcceptRecord)
    → latest_by sender (l ++ a ∷ [])
      ≡ (if a.sender == sender then some a.proposal_id else latest_by sender l)
unfolding latest_by
latest_by-append sender [] a = ground arith
latest_by-append sender (b ∷ l) a = ground (arith, latest_by-append sender l a)

pub record AcceptsFit (s : Negotiation) : Type 0 where
  pub latest :
      (sender : String) → Dict.get sender s.latest_accept_by_sender ≡ latest_by sender s.accepts
  pub unique : UniqueKeys s.latest_accept_by_sender

Step-AcceptsFit : {e : Envelope} {s t : Negotiation} → Step e s t → AcceptsFit s → AcceptsFit t
Step-AcceptsFit (same r) h = rw r h
Step-AcceptsFit (opened _ _ r) h = rw r (record { latest = h.latest; unique = h.unique })
Step-AcceptsFit (rejected _ r) h = rw r (record { latest = h.latest; unique = h.unique })
Step-AcceptsFit (ended _ _ r) h = rw r (record { latest = h.latest; unique = h.unique })
Step-AcceptsFit (withdrawn _ r) h = rw r (record { latest = h.latest; unique = h.unique })
Step-AcceptsFit {s} (accepted a _ r) h = rw r (record {
  latest = λ sender.
      rw (Dict.get-set a.sender sender a.proposal_id s.latest_accept_by_sender)
        (ground (arith, latest_by-append sender s.accepts a, h.latest sender));
  unique = UniqueKeys-set a.sender a.proposal_id _ h.unique;
})

-- After any sequence of envelopes the map of current positions holds, for each sender, the proposal
-- of that sender's last Accept in the audit trail `accepts`, and no one else's.
pub feed-AcceptsFit :
    (parse : ProposalParsers) (es : List Envelope) → AcceptsFit (negotiation_after parse es)
unfolding Dict.get latest_by
feed-AcceptsFit parse es =
    feed_state_induction (proposal_projection parse) (proposal_projection-IsLawful parse) AcceptsFit
      (λ e q h. Step-AcceptsFit (apply_mode_message-Step e q parse).step h) es _
      (record { latest = λ sender. refl; unique = tt })

-- Values and lookups
contains-values :
    (k v : String) (d : Dict.Dict String)
    → Dict.get k d ≡ some v
    → contains v (Dict.values d) ≡ true
unfolding Dict.get
contains-values k v [] g = cc
contains-values k v ((j, w) ∷ d) g = ground (arith, contains-values k v d, eq_refl v)

holder :
    (v : String) (d : Dict.Dict String)
    → UniqueKeys d
    → contains v (Dict.values d) ≡ true
    → (k : String) × (Dict.get k d ≡ some v)
unfolding Dict.get
holder v [] u h = cc
holder v ((j, w) ∷ d) u h = elim (Bool-cases (w == v)) [
  | inl y ↦ (j, rw (eq_refl j) (ap some ((eq_iff w v).0 y)))
  | inr n ↦
      let (k, g) = holder v d u.1 (ground arith) in
      (k, ground (arith, g, u.0, has-keys k d, eq_iff j k))
]

from_keys-seen :
    (x : String) (xs : List String)
    → ((v : String) → contains v xs ≡ true → v ≡ x)
    → from_keys (x ∷ []) xs ≡ []
from_keys-seen x [] h = refl
from_keys-seen x (y ∷ xs) h =
    ground (arith, h y, eq_refl y, eq_iff x y, from_keys-seen x xs (λ v m. h v (ground arith)))

abbrev Agreed : String → List String → Type 0
Agreed pid vals = (is_empty vals ≡ false) × ((v : String) → contains v vals ≡ true → v ≡ pid)

the_only-cons :
    (x pid : String) (l : List String) → the_only (x ∷ l) ≡ some pid → (x ≡ pid) × (l ≡ [])
the_only-cons x pid [] h = (cc, refl)
the_only-cons x pid (y ∷ l) h = cc

only_value :
    (x v : String) (rest : List String)
    → from_keys (x ∷ []) rest ≡ []
    → contains v (x ∷ rest) ≡ true
    → v ≡ x
only_value x v rest e m =
    ground (arith, contains-from_keys v (x ∷ []) rest, ap (contains v) e, eq_iff x v)

the_only-Agreed :
    (pid : String) (vals : List String)
    → (the_only (from_keys [] vals) ≡ some pid) ↔ Agreed pid vals
the_only-Agreed pid [] = (λ h. cc, λ a. cc (a.0))
the_only-Agreed pid (x ∷ rest) = (
  λ h.
      let (named, alone) = the_only-cons x pid (from_keys (x ∷ []) rest) h in
      (refl, λ v m. only_value x v rest alone m ∙ named),
  λ (_, all).
      let alone : from_keys (x ∷ []) rest ≡ [] =
        from_keys-seen x rest
          (λ v m. all v (ground arith) ∙ sym (all x (ground (arith, eq_refl x)))) in
      rw alone (ap some (all x (ground (arith, eq_refl x)))),
)

some_member : (vals : List String) → is_empty vals ≡ false → (v : String) × (contains v vals ≡ true)
some_member [] h = cc h
some_member (v ∷ vals) h = (v, ground (arith, eq_refl v))

not_empty : (v : String) (vals : List String) → contains v vals ≡ true → is_empty vals ≡ false
not_empty v [] h = cc h
not_empty v (x ∷ vals) h = refl

accepted_proposal-values :
    (s : Negotiation)
    → accepted_proposal s ≡ the_only (from_keys [] (Dict.values s.latest_accept_by_sender))
unfolding accepted_proposal
accepted_proposal-values s = skip_test s.latest_accept_by_sender
  where
    skip_test :
        (d : Dict.Dict String)
        → (if is_empty d then none else the_only (from_keys [] (Dict.values d)))
          ≡ the_only (from_keys [] (Dict.values d))
    skip_test [] = refl
    skip_test (x ∷ d) = refl

-- Some sender's last Accept is for `pid`, and no sender's last Accept is for another proposal.
pub record IsAgreement (accepts : List ProposalAcceptRecord) (pid : String) : Type 0 where
  pub sender : String
  pub accepting : latest_by sender accepts ≡ some pid
  pub unanimous : (other q : String) → latest_by other accepts ≡ some q → q ≡ pid

module _ (s : Negotiation) (fit : AcceptsFit s) (pid : String) where
  agreement : accepted_proposal s ≡ some pid → IsAgreement s.accepts pid
  agreement h =
      let vals = Dict.values s.latest_accept_by_sender in
      let (ne, all) = (the_only-Agreed pid vals).0 (sym (accepted_proposal-values s) ∙ h) in
      let (v, m) = some_member vals ne in
      let (k, g) = holder v s.latest_accept_by_sender fit.unique m in
      record {
        sender = k;
        accepting = sym (fit.latest k) ∙ g ∙ ap some (all v m);
        unanimous = λ other q l.
            all q (contains-values other q s.latest_accept_by_sender (fit.latest other ∙ l));
      }

  agreed : IsAgreement s.accepts pid → accepted_proposal s ≡ some pid
  agreed a =
      let vals = Dict.values s.latest_accept_by_sender in
      let m =
        contains-values a.sender pid s.latest_accept_by_sender
          (fit.latest a.sender ∙ a.accepting) in
      accepted_proposal-values s
      ∙ (the_only-Agreed pid vals).1 (
        not_empty pid vals m,
        λ v n.
            let (k, g) = holder v s.latest_accept_by_sender fit.unique n in
            a.unanimous k v (sym (fit.latest k) ∙ g),
      )

-- After any sequence of envelopes `accepted_proposal` names a proposal exactly if some sender's last
-- Accept is for it and no sender's last Accept is for another.
pub feed-accepted_proposal :
    (parse : ProposalParsers) (es : List Envelope) (pid : String)
    → let s = negotiation_after parse es in
      (accepted_proposal s ≡ some pid) ↔ IsAgreement s.accepts pid
feed-accepted_proposal parse es pid =
    (agreement _ (feed-AcceptsFit parse es) pid, agreed _ (feed-AcceptsFit parse es) pid)
