-- ===== src/Handoff/Settled.antt =====
-- A handoff is settled at most once (RFC-MACP-0010 §5 rule 4).
use macp_sdk_python.Dict
use macp_sdk_python.Dict.{Dict, get, get-modify, get-set}
use macp_sdk_python.Envelope.{Envelope, StrMethods}
use macp_sdk_python.Handoff.{
  HandoffAcceptPayload, HandoffDeclinePayload, HandoffOfferPayload, HandoffParsers, HandoffRecord,
  Handoffs, handoff_projection, handoffs_after, is_pending, offer_of, on_accept, on_decline, settle,
  settled_handoff,
}
use macp_sdk_python.Handoff.Lawful.{handoff_projection-IsLawful}
use macp_sdk_python.Handoff.Steps.{
  Change, Step, accepting, apply_mode_message-Step, changed, contextual, declining, offered, same,
}
use macp_sdk_python.Prelude.{
  Bool, Bool-cases, List, Option, String, [], arith, contains, eq_iff, false, inl, inr, none, refl,
  some, sym, true, ◌++◌, ◌==◌, ◌∷◌, ◌≡◌, ◌⊎◌,
}
use macp_sdk_python.Projection.{Projection, record_anomaly}
use macp_sdk_python.Projection.Replay.{feed_state_induction}

abbrev is_some : {A : Type 0} → Option A → Bool
is_some o = elim o [ none ↦ false | some _ ↦ true ]

abbrev pub statuses : List String
statuses = "offered" ∷ "context_sent" ∷ "accepted" ∷ "declined" ∷ []

-- The status is one of four, and agrees with who settled the handoff.
pub record IsFit (h : HandoffRecord) : Type 0 where
  pub known : contains h.status statuses ≡ true
  pub accepted : (h.status == "accepted") ≡ is_some h.accepted_by
  pub declined : (h.status == "declined") ≡ is_some h.declined_by

abbrev pub Fits : Option HandoffRecord → Type 0
Fits none = Unit
Fits (some h) = IsFit h

pub record HandoffsFit (s : Handoffs) : Type 0 where
  pub fits : (hid : String) → Fits (Dict.get hid s)

IsFit-offer_of : (e : Envelope) (x : HandoffOfferPayload) → IsFit (offer_of e x)
IsFit-offer_of e x = record { known = refl; accepted = refl; declined = refl }

pending-cases :
    (h : HandoffRecord) → is_pending h ≡ true → (h.status ≡ "offered") ⊎ (h.status ≡ "context_sent")
pending-cases h p = ground (arith, eq_iff "offered" h.status, eq_iff "context_sent" h.status)

-- A pending handoff has neither acceptor nor decliner.
pending-unsettled :
    (h : HandoffRecord)
    → IsFit h
    → is_pending h ≡ true
    → (is_some h.accepted_by ≡ false) × (is_some h.declined_by ≡ false)
pending-unsettled h k p = elim (pending-cases h p) [
  | inl y ↦ (sym (rw y at k.accepted), sym (rw y at k.declined))
  | inr y ↦ (sym (rw y at k.accepted), sym (rw y at k.declined))
]

Change-IsFit :
    (h : HandoffRecord) (f : HandoffRecord → HandoffRecord) → Change h f → IsFit h → IsFit (f h)
Change-IsFit h f (contextual x r) k = rw r (elim (Bool-cases (h.status == "offered")) [
  | inl y ↦
      let offered : h.status ≡ "offered" = (eq_iff h.status "offered").0 y in
      record {
        known = rw y refl;
        accepted = rw y (rw offered at k.accepted);
        declined = rw y (rw offered at k.declined);
      }
  | inr n ↦ record { known = rw n k.known; accepted = rw n k.accepted; declined = rw n k.declined }
])
Change-IsFit h f (accepting x pending r) k =
    rw r
      (record { known = refl; accepted = refl; declined = sym (pending-unsettled h k pending).1 })
Change-IsFit h f (declining x pending r) k =
    rw r
      (record { known = refl; accepted = sym (pending-unsettled h k pending).0; declined = refl })

Step-HandoffsFit : {e : Envelope} {s t : Handoffs} → Step e s t → HandoffsFit s → HandoffsFit t
Step-HandoffsFit (same r) k = rw r k
Step-HandoffsFit {e} {s} (offered x r) k = rw r (record {
  fits = λ hid. rw Dict.get-set (elim (Bool-cases (x.handoff_id == hid)) [
    | inl y ↦ rw y (IsFit-offer_of e x)
    | inr n ↦ rw n (k.fits hid)
  ]);
})
Step-HandoffsFit {e} {s} (changed k h f found c r) fit = rw r (record {
  fits = λ hid. rw Dict.get-modify (elim (Bool-cases (k == hid)) [
    | inl y ↦
        let here : Dict.get hid s ≡ some h = rw ((eq_iff k hid).0 y) at found in
        rw (y, here) (Change-IsFit h f c (rw here at (fit.fits hid)))
    | inr n ↦ rw n (fit.fits hid)
  ]);
})

-- After any sequence of envelopes every handoff has one of the four statuses, names an acceptor
-- exactly if its status is "accepted", and a decliner exactly if it is "declined".
pub feed-HandoffsFit :
    (py : StrMethods) (parse : HandoffParsers) (es : List Envelope)
    → HandoffsFit (handoffs_after py parse es)
unfolding Dict.get
feed-HandoffsFit py parse es =
    feed_state_induction (handoff_projection py parse) (handoff_projection-IsLawful py parse)
      HandoffsFit (λ e q h. Step-HandoffsFit (apply_mode_message-Step e q py parse).step h) es _
      (record { fits = λ hid. tt })

-- A HandoffAccept or HandoffDecline for a handoff that is settled already changes no handoff and not
-- the phase, and adds exactly one anomaly.
pub settled_stays :
    (py : StrMethods) (e : Envelope) (x : HandoffAcceptPayload) (y : HandoffDeclinePayload)
    (p : Projection Handoffs) (h : HandoffRecord)
    → is_pending h ≡ false
    → Dict.get x.handoff_id p.state ≡ some h
    → Dict.get y.handoff_id p.state ≡ some h
    → (on_accept py e x p ≡ record p {
      anomalies = p.anomalies ++ settled_handoff py e "HandoffAccept" x.handoff_id h ∷ [];
    })
      × (on_decline py e y p ≡ record p {
        anomalies = p.anomalies ++ settled_handoff py e "HandoffDecline" y.handoff_id h ∷ [];
      })
unfolding on_accept on_decline record_anomaly
settled_stays py e x y p h settled gx gy =
    (rw (gx, settle) (rw settled), rw (gy, settle) (rw settled))
