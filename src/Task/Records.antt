-- ===== src/Task/Records.antt =====
-- The generated payloads of Task mode, the records of src/macp_sdk/task.py, and how the handler
-- fills them.
use macp_sdk_python.Dict
use macp_sdk_python.Dict.{Dict}
use macp_sdk_python.Envelope.{Bytes, CommitmentPayload, Envelope}
use macp_sdk_python.Prelude.{Bool, List, Option, String, none, or_else, ℕ}

pub record TaskRequestPayload : Type 0 where
  pub task_id : String
  pub title : String
  pub instructions : String
  pub requested_assignee : String
  pub input : Bytes
  pub deadline_unix_ms : ℕ

-- `TaskAcceptPayload` and `TaskRejectPayload` have the same fields.
pub record AssigneePayload : Type 0 where
  pub task_id : String
  pub assignee : String
  pub reason : String

pub record TaskUpdatePayload : Type 0 where
  pub task_id : String
  pub status : String
  pub progress : ℕ
  pub message : String

pub record TaskCompletePayload : Type 0 where
  pub task_id : String
  pub assignee : String
  pub summary : String
  pub output : Bytes

pub record TaskFailPayload : Type 0 where
  pub task_id : String
  pub assignee : String
  pub error_code : String
  pub reason : String
  pub retryable : Bool

pub record TaskParsers : Type 0 where
  pub commitment : Bytes → Option CommitmentPayload
  pub request : Bytes → Option TaskRequestPayload
  pub accept : Bytes → Option AssigneePayload
  pub reject : Bytes → Option AssigneePayload
  pub update : Bytes → Option TaskUpdatePayload
  pub complete : Bytes → Option TaskCompletePayload
  pub fail : Bytes → Option TaskFailPayload

pub record TaskRecord : Type 0 where
  pub task_id : String
  pub title : String
  pub instructions : String
  pub requested_assignee : String
  pub sender : String
  pub status : String
  pub progress : ℕ
  pub assignee : Option String
  pub deadline_unix_ms : ℕ
  pub input : Bytes

pub record TaskRejectRecord : Type 0 where
  pub task_id : String
  pub assignee : String
  pub reason : String
  pub sender : String
  pub while_assigned : Bool

pub record TaskUpdateRecord : Type 0 where
  pub task_id : String
  pub status : String
  pub progress : ℕ
  pub message : String
  pub sender : String

pub record TaskCompleteRecord : Type 0 where
  pub task_id : String
  pub assignee : String
  pub summary : String
  pub output : Bytes
  pub sender : String

pub record TaskFailRecord : Type 0 where
  pub task_id : String
  pub assignee : String
  pub error_code : String
  pub reason : String
  pub retryable : Bool
  pub sender : String

-- The fields that `TaskProjection.__init__` adds; the slot is `(sender, task_id)`.
pub record TaskFields : Type 0 where
  pub tasks : Dict.Dict TaskRecord
  pub updates : List TaskUpdateRecord
  pub rejections : List TaskRejectRecord
  pub completions : List TaskCompleteRecord
  pub failures : List TaskFailRecord
  pub active_assignment : Option (String × String)

-- The bit patterns of 0.0 and 1.0
abbrev pub zero_float : ℕ
zero_float = 0

abbrev pub one_float : ℕ
one_float = 0x3ff0000000000000

abbrev pub task_of : Envelope → TaskRequestPayload → TaskRecord
task_of e x = record {
  task_id = x.task_id;
  title = x.title;
  instructions = x.instructions;
  requested_assignee = x.requested_assignee;
  sender = e.sender;
  status = "requested";
  progress = zero_float;
  assignee = none;
  deadline_unix_ms = x.deadline_unix_ms;
  input = x.input;
}

abbrev pub update_of : Envelope → TaskUpdatePayload → TaskUpdateRecord
update_of e x = record {
  task_id = x.task_id;
  status = x.status;
  progress = x.progress;
  message = x.message;
  sender = e.sender;
}

abbrev pub completion_of : Envelope → TaskCompletePayload → TaskCompleteRecord
completion_of e x = record {
  task_id = x.task_id;
  assignee = or_else x.assignee e.sender;
  summary = x.summary;
  output = x.output;
  sender = e.sender;
}

abbrev pub failure_of : Envelope → TaskFailPayload → TaskFailRecord
failure_of e x = record {
  task_id = x.task_id;
  assignee = or_else x.assignee e.sender;
  error_code = x.error_code;
  reason = x.reason;
  retryable = x.retryable;
  sender = e.sender;
}
