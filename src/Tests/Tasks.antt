-- ===== src/Tests/Tasks.antt =====
-- A Task session: a request, a reject, an accept, a competing accept, and a reject by the assignee.
use macp_sdk_python.Dict
use macp_sdk_python.Dict.{Dict, get, modify, set}
use macp_sdk_python.Envelope.{Envelope}
use macp_sdk_python.Prelude.{List, String, [], false, length, none, refl, some, true, ℕ, ◌∷◌, ◌≡◌}
use macp_sdk_python.Projection.{
  Projection, ProjectionClass, apply_envelope, feed, init, record_anomaly, set_phase, when_type,
  with_payload,
}
use macp_sdk_python.Task.{
  apply_mode_message, on_accept, on_reject, on_request, task_after, task_projection,
}
use macp_sdk_python.Task.Queries.{
  can_accept, current_assignee, has_declined, negative_commit_eligible,
}
use macp_sdk_python.Task.Records.{AssigneePayload, TaskFields, TaskParsers}
use macp_sdk_python.Task.Slot.{SlotFits, feed-SlotFits}
use macp_sdk_python.Tests.Samples.{commitment, envelope, python, unless_empty}

abbrev assignee : AssigneePayload
assignee = record { task_id = "t1"; assignee = ""; reason = "" }

abbrev parsers : TaskParsers
parsers = record {
  commitment = unless_empty commitment;
  request = unless_empty (record {
    task_id = "t1";
    title = "build";
    instructions = "";
    requested_assignee = "bob";
    input = [];
    deadline_unix_ms = 0;
  });
  accept = unless_empty assignee;
  reject = unless_empty assignee;
  update = unless_empty (record { task_id = "t1"; status = ""; progress = 0; message = "" });
  complete = unless_empty (record { task_id = "t1"; assignee = ""; summary = ""; output = [] });
  fail =
      unless_empty
        (record { task_id = "t1"; assignee = ""; error_code = ""; reason = ""; retryable = true });
}

abbrev send : ℕ → String → String → String → Envelope
send ref message_type message_id sender =
    envelope ref "macp.mode.task.v1" message_type message_id sender (1 ∷ [])

abbrev task : ProjectionClass TaskFields
task = task_projection python parsers

abbrev opening : List Envelope
opening =
    send 1 "TaskRequest" "m1" "alice"
    ∷ send 2 "TaskReject" "m2" "dave"
    ∷ send 3 "TaskAccept" "m3" "bob"
    ∷ send 4 "TaskAccept" "m4" "carol"
    ∷ []

abbrev opened : Projection TaskFields
opened = feed task opening (init task)

abbrev returning : List Envelope
returning = send 5 "TaskReject" "m5" "bob" ∷ []

runs : Unit {0}
unfolding feed apply_envelope apply_mode_message when_type with_payload on_request on_accept
    on_reject set_phase record_anomaly Dict.get Dict.set Dict.modify has_declined can_accept
    negative_commit_eligible current_assignee
runs = tt

opened_assignee : current_assignee "t1" opened.state ≡ some "bob"
unfolding runs
opened_assignee = refl

opened_anomalies : length opened.anomalies ≡ 1
unfolding runs
opened_anomalies = refl

returned_assignee : current_assignee "t1" (feed task returning opened).state ≡ none
unfolding runs
returned_assignee = refl

feed-SlotFits_example : SlotFits (task_after python parsers opening)
feed-SlotFits_example = feed-SlotFits python parsers opening

-- dave declines and then claims: the handler gives him the slot that `can_accept` denies him.
abbrev declined : List Envelope
declined = send 1 "TaskRequest" "m1" "alice" ∷ send 2 "TaskReject" "m2" "dave" ∷ []

abbrev after_decline : Projection TaskFields
after_decline = feed task declined (init task)

advised_against : can_accept "dave" after_decline.state ≡ false
unfolding runs
advised_against = refl

accepted_after_decline :
    current_assignee "t1" (feed task (send 3 "TaskAccept" "m3" "dave" ∷ []) after_decline).state
    ≡ some "dave"
unfolding runs
accepted_after_decline = refl
