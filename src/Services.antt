-- ===== src/Services.antt =====
-- app/services: the services that change the project state.
pub mod EventClaims
pub mod Session
pub mod Access
pub mod Activity
pub mod Tasks
pub mod Materials
pub mod Issues
pub mod Outbox
pub mod Notifications
pub mod Approvals
pub mod ImportDiff
