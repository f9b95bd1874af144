-- ===== src/Lib.antt =====
-- OG Foreman: a service that turns site updates of construction projects into tasks, issues,
-- materials and approvals. This library models the core of app/: the domain policies, the repository
-- with optimistic versions, and the services that change project state.
--
-- Parts and files:
--   Base: Python's tests, lists, dicts, signed integers, stripped texts and exceptions (`Result`, and `Exec` for code
--     that also changes a state).
--   Domain/Enums: app/domain/enums.py. Domain/Transitions: the status tables and guards of
--     app/domain/policies.py. Domain/Graph: `validate_task_dependency_graph` of the same file.
--     Domain/Task, Domain/ProcessedEvent: the records of app/domain/models.py with the checks of
--     their validators. Domain/Authorization: app/domain/authorization.py, with whom it lets in (Exact).
--   Repositories/Memory: `InMemoryRepository` of app/repositories/memory.py, one function for each
--     method that writes, over a `Repo` of partitions; `run_transaction` restores the snapshot.
--     Refinement compares it with an abstract store.
--   Services/EventClaims: app/services/event_claims.py over the repository of processed events; the
--     children prove what the calls do (Rules), invariants (Safety, Final), ownership of a claim
--     (Ownership) and when calls return (Progress).
--   Domain/Json: the JSON values of metadata and payloads. Domain/Outbox, Domain/Approval, Domain/AgentRun: `OutboxMessage`,
--     `Approval` and `AgentRun` of app/domain/models.py.
--   Domain/Activity, Domain/Records, Domain/Material, Domain/Issue: app/domain/activity.py, app/domain/materials.py,
--     the pure part of app/repositories/activity.py and more records of app/domain/models.py.
--   Services/Session: the repositories of one transaction (`InMemoryRepositoryStore`) and the
--     `AuthorizedProjectRepository` of app/repositories/membership.py, whose writes stay in their
--     project (Scope), and what its calls did when they returned (Calls).
--   Services/Activity: app/services/activity.py; its children prove what a repeated
--     call (Once), a call for another mutation (Conflict) and a failed call (Atomic) do.
--   Services/Tasks: app/services/tasks.py, with the commands (Commands), `_apply_update` (Update),
--     `_apply_details` (Details), the methods of `TaskService` (Service) and what an accepted update
--     makes of a task (Completion).
--   Services/Access: the checks that the commands on tasks and materials make first.
--   Services/Materials: app/services/materials.py, with the commands (Commands), the plans and writes
--     of a change (Stock), the methods of `MaterialService` and the resolution of names of
--     app/repositories/materials.py (Service), and what a change does to stock and ledger (Plans, Moves) and to a
--     request (Deliveries).
--   Services/Outbox: app/services/outbox.py; its children are about the calls on messages (Calls) and
--     `process` (Process, Publication).
--   Services/Notifications: app/services/delivery_notifications.py, with the changes to a message
--     (Messages), the transactions, and the loop of `deliver` (Delivery); the children prove what
--     the transactions do (Steps), who owns a message (Ownership), the backoff (Bounds) and how the
--     rounds and the loop end (Rounds, Endings) and when a message is delivered (Progress,
--     Delivers).
--   Services/Approvals: app/services/approvals.py, with what a resolution writes (Decision); the
--     children prove what the writes did (Writes), how a resolution ends (Outcome) and that it is not
--     overturned (Finality), and look at the keys of the events (Keys).
--   Services/ImportDiff: app/services/project_import_diff.py, with its indexes (Index) and the
--     differences of single entities (Entities), over the drafts of app/domain/project_import.py
--     (Domain/ImportDraft); the children prove what the indexes know (Fresh) and which imports pass
--     (Additive, Exact).
--   Services/Issues: `update_issue` of app/services/issues.py; Statuses is about the
--     statuses that an issue can be given.
--   Examples: concrete inputs and tests.
--
-- Conventions: times are microseconds since the epoch, decimals are counted in millionths; an
-- optional field is an `Option`; a clock reading and a random token are arguments; SHA-256, JSON and
-- decimal texts are the parameter `Texts`, Python's Unicode functions the parameter `Names`. A
-- repository works on any record that fills the interface `Entity`, whose `strip` and `validate` are
-- pydantic's `model_validate`: Base/Strip is its documented `str_strip_whitespace`. Ids, keys and
-- other texts with a pattern are taken as a constructor left them, without blanks at their ends.
-- Domain/Decimal rounds sums to the 28 digits of Python's decimal arithmetic.
--
-- Fuel: `visit` of Domain/Graph takes one more than the number of tasks, since each nested call marks
-- another task; the loop of `deliver` takes one more than the attempts that are allowed, since each
-- round counts an attempt.
--
-- Not modelled: locks and deep copies of the in-memory repository (a model's values are never shared),
-- the formats and lengths of texts that no branch depends on, Python's limit on the depth of
-- recursion, and the parts that only translate to and from external services (HTTP, Firestore,
-- Cloud Storage, Pub/Sub, language models), whose answers this code does not determine.
pub mod Base
pub mod Domain
pub mod Repositories
pub mod Services
pub mod Examples
