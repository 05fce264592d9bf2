-- ===== src/Handoff/Lawful.antt =====
-- The Handoff handler keeps the contract of `_apply_mode_message`.
use macp_sdk_python.Dict
use macp_sdk_python.Dict.{Dict, get, has}
use macp_sdk_python.Envelope.{Envelope, StrMethods}
use macp_sdk_python.Handoff.{
  HandoffContextPayload, HandoffParsers, HandoffRecord, Handoffs, apply_mode_message, is_pending,
  on_accept, on_context, on_decline, on_offer, settle, with_accept, with_decline,
}
use macp_sdk_python.Prelude.{
  Bool-cases, Option, String, false, inl, inr, none, refl, some, ◌==◌, ◌≡◌,
}
use macp_sdk_python.Projection.{Projection}
use macp_sdk_python.Projection.Contract.{
  Keeps, Keeps-record_anomaly, Keeps-refl, Keeps-set_phase, Keeps-state, Obeys, Obeys-returned,
  Obeys-when_type, Obeys-with_payload,
}

on_context-Keeps :
    (e : Envelope) (p : Projection Handoffs) (x : HandoffContextPayload)
    → Keeps e p (on_context x p)
unfolding on_context
on_context-Keeps e p x = elim (Bool-cases (Dict.has x.handoff_id p.state)) [
  | inr n ↦ rw n (Keeps-refl e p)
  | inl y ↦ elim (Bool-cases (p.phase == "OfferPending")) [
    | inl o ↦ rw (y, o) (Keeps-set_phase e "ContextSharing" p _ refl (Keeps-state e p _))
    | inr o ↦ rw (y, o) (Keeps-state e p _)
  ]
]

settle-Keeps :
    (py : StrMethods) (e : Envelope) (name hid : String) (change : HandoffRecord → HandoffRecord)
    (phase : String) (o : Option HandoffRecord) (p : Projection Handoffs)
    → (phase == "Committed") ≡ false
    → Keeps e p (settle py e name hid change phase o p)
unfolding settle
settle-Keeps py e name hid change phase none p c = Keeps-refl e p
settle-Keeps py e name hid change phase (some h) p c = elim (Bool-cases (is_pending h)) [
  | inl y ↦ rw y (Keeps-set_phase e phase p _ c (Keeps-state e p _))
  | inr n ↦ rw n (Keeps-record_anomaly e _ p refl refl)
]

-- Every Handoff message leaves the base class's fields to the base class, changes nothing at all if
-- its payload does not parse, and neither enters nor leaves the phase "Committed".
pub handoff_projection-IsLawful :
    (py : StrMethods) (parse : HandoffParsers) (e : Envelope) (p : Projection Handoffs)
    → Obeys e p (apply_mode_message py parse e p)
unfolding apply_mode_message on_offer on_accept on_decline
handoff_projection-IsLawful py parse e p =
    Obeys-when_type e _ p _ _
      (Obeys-with_payload e _ (on_offer e) p
        (λ x. Keeps-set_phase e "OfferPending" p _ refl (Keeps-state e p _)))
      (Obeys-when_type e _ p _ _ (Obeys-with_payload e _ on_context p (on_context-Keeps e p)) (
        Obeys-when_type e _ p _ _
          (Obeys-with_payload e _ (on_accept py e) p (λ x.
            settle-Keeps py e "HandoffAccept" x.handoff_id (with_accept x) "Accepted"
              (Dict.get x.handoff_id p.state) p refl))
          (Obeys-when_type e _ p _ _
            (Obeys-with_payload e _ (on_decline py e) p (λ x.
              settle-Keeps py e "HandoffDecline" x.handoff_id (with_decline x) "Declined"
                (Dict.get x.handoff_id p.state) p refl))
            (Obeys-returned e p p (Keeps-refl e p)))))
