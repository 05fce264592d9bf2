-- ===== src/Handoff/Offers.antt =====
-- `can_offer_to`, `declined_targets` and `active_offer`.
use macp_sdk_python.Dict
use macp_sdk_python.Dict.{Dict, get, values}
use macp_sdk_python.Envelope.{Envelope, StrMethods}
use macp_sdk_python.Handoff.{HandoffParsers, HandoffRecord, Handoffs, handoffs_after}
use macp_sdk_python.Handoff.Queries.{can_offer_to, declined_targets}
use macp_sdk_python.Handoff.Settled.{IsFit, feed-HandoffsFit}
use macp_sdk_python.Prelude.{
  Bool, List, NoRepeats, String, [], any, arith, contains, contains-from_keys, eq_iff, false,
  from_keys-NoRepeats, map, refl, select, some, true, ◌&&◌, ◌==◌, ◌∷◌, ◌≡◌, ◌≢◌,
}

any-values :
    (test : HandoffRecord → Bool) (hid : String) (h : HandoffRecord) (s : Handoffs)
    → Dict.get hid s ≡ some h
    → any test (Dict.values s) ≡ false
    → test h ≡ false
unfolding Dict.get
any-values test hid h [] g n = cc
any-values test hid h ((k, w) ∷ s) g n = ground (arith, any-values test hid h s)

contains-targets :
    (target : String) (l : List HandoffRecord)
    → contains target (map (λ h. h.target_participant) (select (λ h. h.status == "declined") l))
      ≡ any (λ h. h.status == "declined" && h.target_participant == target) l
contains-targets target [] = refl
contains-targets target (h ∷ l) = ground (arith, contains-targets target l)

-- `declined_targets` lists exactly the targets of the declined handoffs, each once.
pub declined_targets_lem :
    (target : String) (s : Handoffs)
    → (contains target (declined_targets s)
        ≡ any (λ h. h.status == "declined" && h.target_participant == target) (Dict.values s))
      × NoRepeats (declined_targets s)
unfolding declined_targets
declined_targets_lem target s =
    let declined = select (λ (h : HandoffRecord). h.status == "declined") (Dict.values s) in
    let targets = map (λ (h : HandoffRecord). h.target_participant) declined in
    (
      ground (arith, contains-from_keys target [] targets, contains-targets target (Dict.values s)),
      from_keys-NoRepeats [] targets,
    )

only_declined :
    (h : HandoffRecord)
    → IsFit h
    → contains h.status ("offered" ∷ "context_sent" ∷ "accepted" ∷ []) ≡ false
    → h.status ≡ "declined"
only_declined h fit n = ground (arith, fit.known, eq_iff "declined" h.status)

-- A declined handoff whose target is not barred has another target.
other_target :
    (h : HandoffRecord) (target : String)
    → h.status ≡ "declined"
    → (h.status == "declined" && h.target_participant == target) ≡ false
    → h.target_participant ≢ target
other_target h target d n t =
    cc ((eq_iff h.status "declined").1 d, (eq_iff h.target_participant target).1 t, n)

-- Where `can_offer_to` answers true, every handoff of a session has been declined, and by another
-- target.
pub can_offer_to-declined :
    (py : StrMethods) (parse : HandoffParsers) (es : List Envelope) (target hid : String)
    (h : HandoffRecord)
    → can_offer_to target (handoffs_after py parse es) ≡ true
    → Dict.get hid (handoffs_after py parse es) ≡ some h
    → (h.status ≡ "declined") × (h.target_participant ≢ target)
unfolding can_offer_to
can_offer_to-declined py parse es target hid h free g =
    let s = handoffs_after py parse es in
    let fit : IsFit h = rw g at ((feed-HandoffsFit py parse es).fits hid) in
    let open_status =
      λ (q : HandoffRecord). contains q.status ("offered" ∷ "context_sent" ∷ "accepted" ∷ []) in
    let barred = λ (q : HandoffRecord). q.status == "declined" && q.target_participant == target in
    let none_open : any open_status (Dict.values s) ≡ false = ground arith in
    let none_barred : any barred (Dict.values s) ≡ false =
      ground (arith, (declined_targets_lem target s).0) in
    let closed : open_status h ≡ false = any-values open_status hid h s g none_open in
    let other : barred h ≡ false = any-values barred hid h s g none_barred in
    let declined : h.status ≡ "declined" = only_declined h fit closed in
    (declined, other_target h target declined other)
