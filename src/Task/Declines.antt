-- ===== src/Task/Declines.antt =====
-- Personal declines (RFC-MACP-0009 §5 rule 2a).
use macp_sdk_python.Envelope.{Envelope, StrMethods}
use macp_sdk_python.Prelude.{
  List, NoRepeats, String, [], any, arith, contains, contains-from_keys, from_keys-NoRepeats, map,
  refl, true, ◌&&◌, ◌==◌, ◌∙◌, ◌∷◌, ◌≡◌,
}
use macp_sdk_python.Projection.{Projection, ProjectionClass}
use macp_sdk_python.Task.{task_projection}
use macp_sdk_python.Task.Queries.{declined_participants, has_declined}
use macp_sdk_python.Task.Records.{AssigneePayload, TaskFields, TaskParsers, TaskRejectRecord}

module _ (py : StrMethods) (parse : TaskParsers) (e : Envelope) (x : AssigneePayload) where
  abbrev own_class : ProjectionClass TaskFields
  own_class = task_projection py parse

contains-assignees :
    (participant : String) (l : List TaskRejectRecord)
    → (contains participant (map (λ r. r.assignee) l) && true)
      ≡ any (λ r. r.assignee == participant) l
contains-assignees participant [] = refl
contains-assignees participant (r ∷ l) = ground (arith, contains-assignees participant l)

-- `declined_participants` lists exactly those that have declined, each once.
pub declined_participants_lem :
    (s : TaskFields) (participant : String)
    → (contains participant (declined_participants s) ≡ has_declined participant s)
      × NoRepeats (declined_participants s)
unfolding declined_participants has_declined
declined_participants_lem s participant = (
  contains-from_keys participant [] (map (λ r. r.assignee) s.rejections)
      ∙ contains-assignees participant s.rejections,
  from_keys-NoRepeats [] (map (λ r. r.assignee) s.rejections),
)
