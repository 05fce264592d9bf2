-- ===== src/Task/Lawful.antt =====
-- The Task handler keeps the contract of `_apply_mode_message`.
use macp_sdk_python.Dict
use macp_sdk_python.Dict.{Dict, has}
use macp_sdk_python.Envelope.{Envelope, StrMethods}
use macp_sdk_python.Prelude.{
  Bool, Bool-cases, Option, String, false, if◌then◌else◌, inl, inr, none, refl, some, true, ◌==◌,
  ◌≡◌,
}
use macp_sdk_python.Projection.{Projection, set_phase}
use macp_sdk_python.Projection.Contract.{
  Keeps, Keeps-record_anomaly, Keeps-refl, Keeps-set_phase, Keeps-state, Obeys, Obeys-returned,
  Obeys-when_type, Obeys-with_payload,
}
use macp_sdk_python.Task.{
  apply_mode_message, claim, on_accept, on_complete, on_fail, on_reject, on_request, on_update,
}
use macp_sdk_python.Task.Records.{AssigneePayload, TaskFields, TaskParsers}

on_accept-Keeps :
    (py : StrMethods) (e : Envelope) (p : Projection TaskFields) (x : AssigneePayload)
    → Keeps e p (on_accept py e x p)
unfolding on_accept
on_accept-Keeps py e p x = elim (Bool-cases (Dict.has x.task_id p.state.tasks)) [
  | inr n ↦ rw n (Keeps-refl e p)
  | inl y ↦ rw y (claim-Keeps p.state.active_assignment)
]
  where
    claim-Keeps : (slot : Option (String × String)) → Keeps e p (claim py e x slot p)
    claim-Keeps none = Keeps-set_phase e "InProgress" p _ refl (Keeps-state e p _)
    claim-Keeps (some (held_sender, held_task_id)) = Keeps-record_anomaly e _ p refl refl

Keeps-known :
    (e : Envelope) (p : Projection TaskFields) (known : Bool) (s : TaskFields) (phase : String)
    → (phase == "Committed") ≡ false
    → Keeps e p (if known then set_phase phase (record p { state = s }) else record p { state = s })
Keeps-known e p true s phase h = Keeps-set_phase e phase p _ h (Keeps-state e p s)
Keeps-known e p false s phase h = Keeps-state e p s

-- Every Task message leaves the base class's fields to the base class, changes nothing at all if
-- its payload does not parse, and neither enters nor leaves the phase "Committed".
pub task_projection-IsLawful :
    (py : StrMethods) (parse : TaskParsers) (e : Envelope) (p : Projection TaskFields)
    → Obeys e p (apply_mode_message py parse e p)
unfolding apply_mode_message on_request on_reject on_update on_complete on_fail
task_projection-IsLawful py parse e p =
    Obeys-when_type e _ p _ _
      (Obeys-with_payload e _ (on_request e) p
        (λ x. Keeps-set_phase e "Requested" p _ refl (Keeps-state e p _)))
      (Obeys-when_type e _ p _ _
        (Obeys-with_payload e _ (on_accept py e) p (on_accept-Keeps py e p))
        (Obeys-when_type e _ p _ _ (Obeys-with_payload e _ (on_reject e) p (λ x. Keeps-state e p _))
          (Obeys-when_type e _ p _ _
            (Obeys-with_payload e _ (on_update e) p (λ x. Keeps-state e p _))
            (Obeys-when_type e _ p _ _
              (Obeys-with_payload e _ (on_complete e) p (λ x. Keeps-known e p _ _ "Completed" refl))
              (Obeys-when_type e _ p _ _
                (Obeys-with_payload e _ (on_fail e) p (λ x. Keeps-known e p _ _ "Failed" refl))
                (Obeys-returned e p p (Keeps-refl e p)))))))
