-- ===== src/ServiceContracts.antt =====
-- Recurring service contracts, and the dates that their rules give.
-- modules/service-contracts/recurrence.service.ts, serviceContracts.service.ts
pub mod Recurrence
pub mod Occurrences
pub mod Types
pub mod Service
pub mod Edit
pub mod Materialize
pub mod Templates
pub mod Creation
