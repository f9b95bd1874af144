-- ===== src/Examples.antt =====
-- Concrete inputs, tests of the definitions on them, and uses of the theorems.
mod Claims
mod Policies
pub mod Tasks
mod Materials
mod Issues
pub mod Outbox
mod Notifications
mod Approvals
mod Imports
