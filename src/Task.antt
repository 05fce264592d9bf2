-- ===== src/Task.antt =====
-- src/macp_sdk/task.py: `TaskProjection`, its records and its handler.
-- A float is its bit pattern: the handler copies floats, and writes 0.0 and 1.0.
pub mod Records
pub mod Lawful
pub mod Steps
pub mod Queries
pub mod Slot
pub mod Declines
use macp_sdk_python.Dict
use macp_sdk_python.Dict.{Dict, has, modify, set}
use macp_sdk_python.Envelope.{Envelope, StrMethods}
use macp_sdk_python.Prelude.{
  Bool, List, Option, String, [], concat, false, if◌then◌else◌, none, or_else, some, true, ◌++◌,
  ◌==◌, ◌∷◌,
}
use macp_sdk_python.Projection.{
  Projection, ProjectionAnomaly, ProjectionClass, Ran, feed, init, record_anomaly, returned,
  set_phase, when_type, with_payload,
}
use macp_sdk_python.Task.Records.{
  AssigneePayload, TaskCompletePayload, TaskFailPayload, TaskFields, TaskParsers, TaskRejectRecord,
  TaskRequestPayload, TaskUpdatePayload, completion_of, failure_of, one_float, task_of, update_of,
}

abbrev pub assign : String → String → TaskFields → TaskFields
assign tid assignee s = record s {
  tasks = Dict.modify tid (λ t. record t { assignee = some assignee; status = "accepted" }) s.tasks;
}

-- A new request for the task of the slot frees the slot.
abbrev pub release : String → Option (String × String) → Option (String × String)
release tid none = none
release tid (some (sender, held)) = if held == tid then none else some (sender, held)

unfoldable pub on_request :
    Envelope → TaskRequestPayload → Projection TaskFields → Projection TaskFields
on_request e x p = set_phase "Requested" (record p {
  state = record p.state {
    tasks = Dict.set x.task_id (task_of e x) p.state.tasks;
    active_assignment = release x.task_id p.state.active_assignment;
  };
})

module _ (py : StrMethods) where
  unfoldable pub duplicate_task_accept :
      Envelope → AssigneePayload → String → String → ProjectionAnomaly
  duplicate_task_accept e x held_sender held_task_id = record {
    kind = "duplicate_task_accept";
    mode = "macp.mode.task.v1";
    message_type = e.message_type;
    message_id = e.message_id;
    sender = e.sender;
    subject_id = x.task_id;
    detail = concat (
        "active assignee slot already held by "
        ∷ py.repr held_sender
        ∷ " for task "
        ∷ py.repr held_task_id
        ∷ "; discarded competing TaskAccept for task "
        ∷ py.repr x.task_id
        ∷ " from "
        ∷ py.repr e.sender
        ∷ []);
  }

  -- The rest of the TaskAccept branch, by the slot.
  unfoldable pub claim :
      Envelope
      → AssigneePayload
      → Option (String × String)
      → Projection TaskFields
      → Projection TaskFields
  unfolding duplicate_task_accept
  claim e x none p = set_phase "InProgress" (record p {
    state =
        assign x.task_id (or_else x.assignee e.sender)
          (record p.state { active_assignment = some (e.sender, x.task_id) });
  })
  claim e x (some (held_sender, held_task_id)) p =
      record_anomaly (duplicate_task_accept e x held_sender held_task_id) p

  unfoldable pub on_accept :
      Envelope → AssigneePayload → Projection TaskFields → Projection TaskFields
  unfolding claim
  on_accept e x p =
      if Dict.has x.task_id p.state.tasks then claim e x p.state.active_assignment p else p

-- The task of the slot that `sender` holds, if it holds the slot
abbrev pub held_by : String → Option (String × String) → Option String
held_by sender none = none
held_by sender (some (holder, tid)) = if holder == sender then some tid else none

abbrev pub rejection_of : Envelope → AssigneePayload → Bool → TaskRejectRecord
rejection_of e x while_assigned = record {
  task_id = x.task_id;
  assignee = or_else x.assignee e.sender;
  reason = x.reason;
  sender = e.sender;
  while_assigned = while_assigned;
}

-- The TaskReject branch, by the task of the slot that the sender holds
unfoldable pub reject : Envelope → AssigneePayload → Option String → TaskFields → TaskFields
reject e x none s = record s { rejections = s.rejections ++ rejection_of e x false ∷ [] }
reject e x (some held) s =
    let marked = Dict.modify x.task_id (λ t. record t { status = "rejected" }) s.tasks in
    record s {
      rejections = s.rejections ++ rejection_of e x true ∷ [];
      tasks = Dict.modify held (λ t. record t { assignee = none }) marked;
      active_assignment = none;
    }

unfoldable pub on_reject :
    Envelope → AssigneePayload → Projection TaskFields → Projection TaskFields
unfolding reject
on_reject e x p = record p {
  state = reject e x (held_by e.sender p.state.active_assignment) p.state;
}

unfoldable pub on_update :
    Envelope → TaskUpdatePayload → Projection TaskFields → Projection TaskFields
on_update e x p = record p {
  state = record p.state {
    updates = p.state.updates ++ update_of e x ∷ [];
    tasks =
        Dict.modify x.task_id (λ t. record t { status = "in_progress"; progress = x.progress })
          p.state.tasks;
  };
}

unfoldable pub on_complete :
    Envelope → TaskCompletePayload → Projection TaskFields → Projection TaskFields
on_complete e x p =
    let q = record p {
      state = record p.state {
        completions = p.state.completions ++ completion_of e x ∷ [];
        tasks =
            Dict.modify x.task_id (λ t. record t { status = "completed"; progress = one_float })
              p.state.tasks;
      };
    } in
    if Dict.has x.task_id p.state.tasks then set_phase "Completed" q else q

unfoldable pub on_fail : Envelope → TaskFailPayload → Projection TaskFields → Projection TaskFields
on_fail e x p =
    let q = record p {
      state = record p.state {
        failures = p.state.failures ++ failure_of e x ∷ [];
        tasks = Dict.modify x.task_id (λ t. record t { status = "failed" }) p.state.tasks;
      };
    } in
    if Dict.has x.task_id p.state.tasks then set_phase "Failed" q else q

module _ (py : StrMethods) (parse : TaskParsers) where
  unfoldable pub apply_mode_message : Envelope → Projection TaskFields → Ran TaskFields
  apply_mode_message e p =
      when_type e "TaskRequest" (with_payload (parse.request e.payload) (on_request e) p) (
        when_type e "TaskAccept" (with_payload (parse.accept e.payload) (on_accept py e) p) (
          when_type e "TaskReject" (with_payload (parse.reject e.payload) (on_reject e) p) (
            when_type e "TaskUpdate" (with_payload (parse.update e.payload) (on_update e) p) (
              when_type e "TaskComplete" (with_payload (parse.complete e.payload) (on_complete e) p)
                (when_type e "TaskFail" (with_payload (parse.fail e.payload) (on_fail e) p)
                  (returned, p))))))

  abbrev pub task_projection : ProjectionClass TaskFields
  task_projection = record {
    mode = "macp.mode.task.v1";
    initial_phase = "Pending";
    initial_state = record {
      tasks = [];
      updates = [];
      rejections = [];
      completions = [];
      failures = [];
      active_assignment = none;
    };
    parse_commitment = parse.commitment;
    apply_mode_message = apply_mode_message;
  }

-- The fields of the mode after a sequence of envelopes was fed to a fresh projection
abbrev pub task_after : StrMethods → TaskParsers → List Envelope → TaskFields
task_after py parse es =
    (feed (task_projection py parse) es (init (task_projection py parse))).state
