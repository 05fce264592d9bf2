-- ===== src/Task/Slot.antt =====
-- The single assignee slot of a Task session (RFC-MACP-0009 §5 rule 3).
use macp_sdk_python.Dict
use macp_sdk_python.Dict.{Dict, get, get-modify, get-set, has, modify, set}
use macp_sdk_python.Envelope.{Envelope, StrMethods}
use macp_sdk_python.Prelude.{
  Bool, List, Option, Option-cases, String, arith, eq_iff, false, if◌then◌else◌, inl, inr, none,
  not, refl, some, sym, true, ◌&&◌, ◌==◌, ◌∙◌, ◌≡◌,
}
use macp_sdk_python.Projection.Replay.{feed_state_induction}
use macp_sdk_python.Task.{assign, held_by, reject, release, task_after, task_projection}
use macp_sdk_python.Task.Lawful.{task_projection-IsLawful}
use macp_sdk_python.Task.Records.{AssigneePayload, TaskFields, TaskParsers, TaskRecord}
use macp_sdk_python.Task.Steps.{
  Step, apply_mode_message-Step, claimed, rejected, reported, requested, same,
}

abbrev has_assignee : Option TaskRecord → Bool
has_assignee o = elim o [ none ↦ false | some r ↦ elim r.assignee [ none ↦ false | some _ ↦ true ] ]

-- The task is known and has an assignee.
abbrev pub is_assigned : String → TaskFields → Bool
is_assigned tid s = has_assignee (Dict.get tid s.tasks)

-- The slot is held for this task.
abbrev pub is_slot : String → Option (String × String) → Bool
is_slot tid none = false
is_slot tid (some (_, held)) = held == tid

-- The tasks with an assignee are exactly the task of the slot.
pub record SlotFits (s : TaskFields) : Type 0 where
  pub fits : (tid : String) → is_assigned tid s ≡ is_slot tid s.active_assignment

is_slot-release :
    (k tid : String) (slot : Option (String × String))
    → is_slot tid (release k slot) ≡ (is_slot tid slot && not (k == tid))
is_slot-release k tid none = refl
is_slot-release k tid (some (sender, held)) =
    ground (arith, eq_iff held k, eq_iff held tid, eq_iff k tid)

module _ (k tid : String) (f : TaskRecord → TaskRecord) (d : Dict.Dict TaskRecord) where
  has_assignee-modify : has_assignee (Dict.get tid (Dict.modify k f d)) ≡ (
      if k == tid
      then elim (Dict.get tid d) [ none ↦ false | some r ↦ has_assignee (some (f r)) ]
      else has_assignee (Dict.get tid d))
  has_assignee-modify = ground (arith, Dict.get-modify k tid f d, eq_iff k tid)

  modify_keeping :
      ((r : TaskRecord) → (f r).assignee ≡ r.assignee)
      → has_assignee (Dict.get tid (Dict.modify k f d)) ≡ has_assignee (Dict.get tid d)
  modify_keeping keeps = elim (Option-cases (Dict.get tid d)) [
    | inl n ↦ ground (arith, has_assignee-modify)
    | inr (r, y) ↦ ground (arith, has_assignee-modify, keeps r)
  ]

requested-fits :
    (s : TaskFields) (q : TaskRecord) (tid : String)
    → SlotFits s
    → q.assignee ≡ none
    → has_assignee (Dict.get tid (Dict.set q.task_id q s.tasks))
      ≡ is_slot tid (release q.task_id s.active_assignment)
requested-fits s q tid h free = ground (
  arith,
  Dict.get-set q.task_id tid q s.tasks,
  h.fits tid,
  is_slot-release q.task_id tid s.active_assignment,
)

claimed-fits :
    (s : TaskFields) (k assignee sender tid : String)
    → SlotFits s
    → Dict.has k s.tasks ≡ true
    → s.active_assignment ≡ none
    → is_assigned tid (assign k assignee s) ≡ is_slot tid (some (sender, k))
claimed-fits s k assignee sender tid h known free = ground (
  arith,
  Dict.get-modify k tid
      (λ (t : TaskRecord). record t { assignee = some assignee; status = "accepted" }) s.tasks,
  h.fits tid,
  eq_iff k tid,
)

rejected-fits :
    (e : Envelope) (s : TaskFields) (x : AssigneePayload) (tid : String)
    → SlotFits s
    → let t = reject e x (held_by e.sender s.active_assignment) s in
      is_assigned tid t ≡ is_slot tid t.active_assignment
unfolding reject
rejected-fits e s x tid h =
    let status = λ (t : TaskRecord). record t { status = "rejected" } in
    let marked = Dict.modify x.task_id status s.tasks in
    elim (Option-cases (held_by e.sender s.active_assignment)) [
      | inl n ↦ rw n (h.fits tid)
      | inr (k, y) ↦ rw y (
          ground (
            arith,
            y,
            has_assignee-modify k tid (λ (t : TaskRecord). record t { assignee = none }) marked,
            modify_keeping x.task_id tid status s.tasks (λ r. refl),
            h.fits tid,
            eq_iff k tid,
          ))
    ]

Step-SlotFits : {e : Envelope} {s t : TaskFields} → Step e s t → SlotFits s → SlotFits t
Step-SlotFits (same r) h = rw r h
Step-SlotFits {s} (requested q free tasks slot _) h = record {
  fits = λ tid. rw (tasks, slot) (requested-fits s q tid h free);
}
Step-SlotFits {e} {s} (claimed k assignee known free r) h =
    rw r (record { fits = λ tid. claimed-fits s k assignee e.sender tid h known free })
Step-SlotFits {e} {s} (rejected x r) h = rw r (record { fits = λ tid. rejected-fits e s x tid h })
Step-SlotFits {s} (reported k f keeps tasks slot _) h = record {
  fits = λ tid. rw (tasks, slot) (modify_keeping k tid f s.tasks keeps ∙ h.fits tid);
}

-- After any sequence of envelopes the tasks that have an assignee are exactly the one for which the
-- session's slot is held: none if the slot is free.
pub feed-SlotFits :
    (py : StrMethods) (parse : TaskParsers) (es : List Envelope) → SlotFits (task_after py parse es)
unfolding Dict.get
feed-SlotFits py parse es =
    feed_state_induction (task_projection py parse) (task_projection-IsLawful py parse) SlotFits
      (λ e q h. Step-SlotFits (apply_mode_message-Step e q py parse).step h) es _
      (record { fits = λ tid. refl })

-- No two tasks of a session have an assignee at the same time.
pub one_assignee :
    (py : StrMethods) (parse : TaskParsers) (es : List Envelope) (a b : String)
    → is_assigned a (task_after py parse es) ≡ true
    → is_assigned b (task_after py parse es) ≡ true
    → a ≡ b
one_assignee py parse es a b ha hb =
    let s = task_after py parse es in
    let fit = feed-SlotFits py parse es in
    same_slot s.active_assignment (sym (fit.fits a) ∙ ha) (sym (fit.fits b) ∙ hb)
  where
    same_slot :
        (slot : Option (String × String)) → is_slot a slot ≡ true → is_slot b slot ≡ true → a ≡ b
    same_slot none h k = cc
    same_slot (some (_, held)) h k = sym ((eq_iff held a).0 h) ∙ (eq_iff held b).0 k
