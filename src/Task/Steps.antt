-- ===== src/Task/Steps.antt =====
-- What a Task message can do to the fields of `TaskProjection`, as a step relation.
use macp_sdk_python.Dict
use macp_sdk_python.Dict.{Dict, has, modify, set}
use macp_sdk_python.Envelope.{Envelope, StrMethods}
use macp_sdk_python.Prelude.{
  Bool, Bool-cases, Option-cases, String, false, if◌then◌else◌, inl, inr, none, or_else, refl, some,
  true, ◌≡◌,
}
use macp_sdk_python.Projection.{Projection, record_anomaly, set_phase}
use macp_sdk_python.Projection.Contract.{
  Moves, Moves-returned, Moves-when_type, Moves-with_payload, state-set_phase,
}
use macp_sdk_python.Task.{
  apply_mode_message, assign, held_by, on_accept, on_complete, on_fail, on_reject, on_request,
  on_update, reject, release,
}
use macp_sdk_python.Task.Records.{
  AssigneePayload, TaskFields, TaskParsers, TaskRecord, TaskRequestPayload, task_of,
}

pub data Step (e : Envelope) (s t : TaskFields) : Type 0 where
  same : t ≡ s → Step e s t
  requested :
      (r : TaskRecord)
      → r.assignee ≡ none
      → t.tasks ≡ Dict.set r.task_id r s.tasks
      → t.active_assignment ≡ release r.task_id s.active_assignment
      → t.rejections ≡ s.rejections
      → Step e s t
  claimed :
      (tid assignee : String)
      → Dict.has tid s.tasks ≡ true
      → s.active_assignment ≡ none
      → t ≡ assign tid assignee (record s { active_assignment = some (e.sender, tid) })
      → Step e s t
  rejected :
      (x : AssigneePayload) → t ≡ reject e x (held_by e.sender s.active_assignment) s → Step e s t
  -- An update or a report, which leaves the assignee and the slot alone
  reported :
      (tid : String) (f : TaskRecord → TaskRecord)
      → ((r : TaskRecord) → (f r).assignee ≡ r.assignee)
      → t.tasks ≡ Dict.modify tid f s.tasks
      → t.active_assignment ≡ s.active_assignment
      → t.rejections ≡ s.rejections
      → Step e s t

module _ (e : Envelope) (p : Projection TaskFields) where
  on_request-Step : (x : TaskRequestPayload) → Step e p.state (on_request e x p).state
  unfolding on_request
  on_request-Step x = rw (state-set_phase "Requested") (requested (task_of e x) refl refl refl refl)

  on_accept-Step :
      (py : StrMethods) (x : AssigneePayload) → Step e p.state (on_accept py e x p).state
  unfolding on_accept record_anomaly
  on_accept-Step py x = elim (Bool-cases (Dict.has x.task_id p.state.tasks)) [
    | inr n ↦ same (rw n)
    | inl y ↦ elim (Option-cases p.state.active_assignment) [
      | inl free ↦
          claimed x.task_id (or_else x.assignee e.sender) y free
            (rw y (rw free (state-set_phase "InProgress" _)))
      | inr ((holder, tid), held) ↦ same (rw y (rw held))
    ]
  ]

  reported_under :
      (known : Bool) (phase : String) (s : TaskFields)
      → Step e p.state s
      → Step e p.state
          (if known then set_phase phase (record p { state = s }) else record p { state = s }).state
  reported_under true phase s h = rw (state-set_phase phase) h
  reported_under false phase s h = h

  pub apply_mode_message-Step :
      (py : StrMethods) (parse : TaskParsers) → Moves (Step e) p (apply_mode_message py parse e p)
  unfolding apply_mode_message on_reject on_update on_complete on_fail
  apply_mode_message-Step py parse =
      let R = Step e in
      let stay : Step e p.state p.state = same refl in
      Moves-when_type R p e _ _ _ (Moves-with_payload R p _ (on_request e) stay on_request-Step) (
        Moves-when_type R p e _ _ _
          (Moves-with_payload R p _ (on_accept py e) stay (on_accept-Step py))
          (Moves-when_type R p e _ _ _
            (Moves-with_payload R p _ (on_reject e) stay (λ x. rejected x refl))
            (Moves-when_type R p e _ _ _
              (Moves-with_payload R p _ (on_update e) stay
                (λ x. reported x.task_id _ (λ r. refl) refl refl refl))
              (Moves-when_type R p e _ _ _
                (Moves-with_payload R p _ (on_complete e) stay (λ x.
                  reported_under _ "Completed" _ (reported x.task_id _ (λ r. refl) refl refl refl)))
                (Moves-when_type R p e _ _ _
                  (Moves-with_payload R p _ (on_fail e) stay (λ x.
                    reported_under _ "Failed" _ (reported x.task_id _ (λ r. refl) refl refl refl)))
                  (Moves-returned R p stay))))))
