-- ===== src/Handoff/Steps.antt =====
-- What a Handoff message can do to the dict of handoffs, as a step relation.
use macp_sdk_python.Dict
use macp_sdk_python.Dict.{Dict, get, has, has-some, modify, set}
use macp_sdk_python.Envelope.{Envelope, StrMethods}
use macp_sdk_python.Handoff.{
  HandoffAcceptPayload, HandoffContextPayload, HandoffDeclinePayload, HandoffOfferPayload,
  HandoffParsers, HandoffRecord, Handoffs, apply_mode_message, is_pending, offer_of, on_accept,
  on_context, on_decline, on_offer, settle, with_accept, with_context, with_decline,
}
use macp_sdk_python.Prelude.{
  Bool-cases, Option-cases, String, inl, inr, refl, some, true, ◌==◌, ◌≡◌,
}
use macp_sdk_python.Projection.{Projection, record_anomaly}
use macp_sdk_python.Projection.Contract.{
  Moves, Moves-returned, Moves-when_type, Moves-with_payload, state-set_phase,
}

-- The changes to a known handoff
pub data Change (h : HandoffRecord) (f : HandoffRecord → HandoffRecord) : Type 0 where
  contextual : (x : HandoffContextPayload) → f ≡ with_context x → Change h f
  accepting : (x : HandoffAcceptPayload) → is_pending h ≡ true → f ≡ with_accept x → Change h f
  declining : (x : HandoffDeclinePayload) → is_pending h ≡ true → f ≡ with_decline x → Change h f

pub data Step (e : Envelope) (s t : Handoffs) : Type 0 where
  same : t ≡ s → Step e s t
  offered : (x : HandoffOfferPayload) → t ≡ Dict.set x.handoff_id (offer_of e x) s → Step e s t
  changed :
      (hid : String) (h : HandoffRecord) (f : HandoffRecord → HandoffRecord)
      → Dict.get hid s ≡ some h
      → Change h f
      → t ≡ Dict.modify hid f s
      → Step e s t

module _ (e : Envelope) (p : Projection Handoffs) where
  on_offer-Step : (x : HandoffOfferPayload) → Step e p.state (on_offer e x p).state
  unfolding on_offer
  on_offer-Step x = offered x (state-set_phase "OfferPending" _)

  on_context-Step : (x : HandoffContextPayload) → Step e p.state (on_context x p).state
  unfolding on_context
  on_context-Step x = elim (Bool-cases (Dict.has x.handoff_id p.state)) [
    | inr n ↦ same (rw n)
    | inl y ↦
        let (h, found) = Dict.has-some x.handoff_id p.state y in
        changed x.handoff_id h (with_context x) found (contextual x refl)
          (elim (Bool-cases (p.phase == "OfferPending")) [
            | inl o ↦ rw (y, o) (state-set_phase "ContextSharing" _)
            | inr o ↦ rw (y, o)
          ])
  ]

  settle-Step :
      (py : StrMethods) (name hid : String) (f : HandoffRecord → HandoffRecord) (phase : String)
      → ((h : HandoffRecord) → is_pending h ≡ true → Change h f)
      → Step e p.state (settle py e name hid f phase (Dict.get hid p.state) p).state
  unfolding settle record_anomaly
  settle-Step py name hid f phase change = elim (Option-cases (Dict.get hid p.state)) [
    | inl n ↦ same (rw n)
    | inr (h, y) ↦ elim (Bool-cases (is_pending h)) [
      | inl pending ↦
          changed hid h f y (change h pending) (rw y (rw pending (state-set_phase phase _)))
      | inr settled ↦ same (rw y (rw settled))
    ]
  ]

  pub apply_mode_message-Step :
      (py : StrMethods) (parse : HandoffParsers)
      → Moves (Step e) p (apply_mode_message py parse e p)
  unfolding apply_mode_message on_accept on_decline
  apply_mode_message-Step py parse =
      let R = Step e in
      let stay : Step e p.state p.state = same refl in
      Moves-when_type R p e _ _ _ (Moves-with_payload R p _ (on_offer e) stay on_offer-Step) (
        Moves-when_type R p e _ _ _ (Moves-with_payload R p _ on_context stay on_context-Step) (
          Moves-when_type R p e _ _ _
            (Moves-with_payload R p _ (on_accept py e) stay (λ x.
              settle-Step py "HandoffAccept" x.handoff_id (with_accept x) "Accepted"
                (λ h y. accepting x y refl)))
            (Moves-when_type R p e _ _ _
              (Moves-with_payload R p _ (on_decline py e) stay (λ x.
                settle-Step py "HandoffDecline" x.handoff_id (with_decline x) "Declined"
                  (λ h y. declining x y refl)))
              (Moves-returned R p stay))))
