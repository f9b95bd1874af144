-- ===== src/Services/Tasks.antt =====
-- app/services/tasks.py: the commands on tasks, their rules, and the service that runs them.
pub mod Commands
pub mod Update
pub mod Details
pub mod Service
pub mod Completion
