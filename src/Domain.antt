-- ===== src/Domain.antt =====
-- app/domain: enumerations, transition policies, authorization and validated entities.
pub mod Enums
pub mod Decimal
pub mod Transitions
pub mod Authorization
pub mod Task
pub mod ProcessedEvent
pub mod Graph
pub mod Json
pub mod Activity
pub mod Records
pub mod Material
pub mod Issue
pub mod Outbox
pub mod Approval
pub mod AgentRun
pub mod ImportDraft
