-- ===== src/Task/Queries.antt =====
-- The query helpers of `TaskProjection`.
use macp_sdk_python.Dict
use macp_sdk_python.Dict.{Dict, get, values}
use macp_sdk_python.Prelude.{
  Bool, List, Option, String, [], any, contains, false, from_keys, if◌then◌else◌, map, none, not,
  select, some, true, ℕ, ◌&&◌, ◌==◌, ◌||◌, ◌∷◌,
}
use macp_sdk_python.Task.Records.{TaskFields, TaskRecord, TaskUpdateRecord, zero_float}

abbrev pub get_task : String → TaskFields → Option TaskRecord
get_task tid s = Dict.get tid s.tasks

unfoldable pub current_assignee : String → TaskFields → Option String
current_assignee tid s = elim (get_task tid s) [ none ↦ none | some rec ↦ rec.assignee ]

unfoldable pub current_status : String → TaskFields → Option String
current_status tid s = elim (get_task tid s) [ none ↦ none | some rec ↦ some rec.status ]

-- `rec is not None and rec.status in statuses`
unfoldable pub has_status : List String → String → TaskFields → Bool
has_status statuses tid s = elim (get_task tid s) [
  | none ↦ false
  | some rec ↦ contains rec.status statuses
]

abbrev pub is_accepted : String → TaskFields → Bool
is_accepted = has_status ("accepted" ∷ "in_progress" ∷ [])

abbrev pub is_completed : String → TaskFields → Bool
is_completed = has_status ("completed" ∷ [])

abbrev pub is_failed : String → TaskFields → Bool
is_failed = has_status ("failed" ∷ [])

unfoldable pub is_retryable : String → TaskFields → Bool
is_retryable tid s = any (λ f. f.task_id == tid && f.retryable) s.failures

unfoldable pub progress_of : String → TaskFields → ℕ
progress_of tid s = elim (get_task tid s) [ none ↦ zero_float | some rec ↦ rec.progress ]

-- `self.updates[-1].progress if self.updates else None`
unfoldable pub last_progress : List TaskUpdateRecord → Option ℕ
last_progress [] = none
last_progress (u ∷ []) = some u.progress
last_progress (u ∷ v ∷ rest) = last_progress (v ∷ rest)

abbrev pub latest_progress : TaskFields → Option ℕ
latest_progress s = last_progress s.updates

abbrev pub active_tasks : TaskFields → List TaskRecord
active_tasks s =
    select (λ t. contains t.status ("requested" ∷ "accepted" ∷ "in_progress" ∷ []))
      (Dict.values s.tasks)

unfoldable pub has_declined : String → TaskFields → Bool
has_declined participant s = any (λ r. r.assignee == participant) s.rejections

unfoldable pub declined_participants : TaskFields → List String
declined_participants s = from_keys [] (map (λ r. r.assignee) s.rejections)

unfoldable pub can_accept : String → TaskFields → Bool
unfolding has_declined
can_accept participant s = elim s.active_assignment [
  | none ↦ not (has_declined participant s)
  | some _ ↦ false
]

unfoldable pub negative_commit_eligible : String → TaskFields → Bool
negative_commit_eligible tid s = elim (get_task tid s) [
  | none ↦ false
  | some rec ↦
      if any (λ c. c.task_id == tid) s.completions || any (λ f. f.task_id == tid) s.failures
      then true
      else not (rec.requested_assignee == "")
        && (elim s.active_assignment [ none ↦ true | some _ ↦ false ])
        && any (λ r. r.assignee == rec.requested_assignee && not r.while_assigned) s.rejections
]
