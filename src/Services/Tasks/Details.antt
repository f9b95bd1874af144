-- ===== src/Services/Tasks/Details.antt =====
-- `_apply_details` of app/services/tasks.py, between its reads and its write.
use ogaforeman.Base.{
  String, Bool, false, Option, none, some, [], ◌∷◌, ◌++◌, leb, length, if◌then◌else◌, Result, ok,
  err, permission_error, task_mutation,
}
use ogaforeman.Domain.Authorization.{ProjectMember, is_active}
use ogaforeman.Domain.Task.{Task, is_reversed}
use ogaforeman.Services.Tasks.Commands.{UpdateTaskDetailsCommand}

-- The assignee, as the repository of members has it, is an active member.
abbrev pub is_assignable : Option ProjectMember → Bool
is_assignable none = false
is_assignable (some m) = is_active m.status

-- The first field that is given decides.
unfoldable pub decide_details :
    (String → Option ProjectMember) → Task → UpdateTaskDetailsCommand → Result Task
decide_details membership current c =
    let stamped = record current { updated_at = c.occurred_at } in
    elim c.assigned_to [
      | some member ↦
          if is_assignable (membership member)
          then ok (record stamped { assigned_to = some member })
          else err permission_error
      | none ↦ elim c.priority [
        | some p ↦ ok (record stamped { priority = p })
        | none ↦ elim c.planned_end [
          | some t ↦
              if is_reversed current.planned_start (some t)
              then err task_mutation
              else ok (record stamped { planned_end = some t })
          | none ↦ elim c.note [
            | some n ↦
                if leb 100 (length current.notes)
                then err task_mutation
                else ok (record stamped { notes = current.notes ++ n ∷ [] })
            | none ↦ ok stamped
          ]
        ]
      ]
    ]
