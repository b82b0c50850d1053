-- ===== src/Invoices.antt =====
-- The invoice service. modules/invoices/
pub mod Types
pub mod Rules
pub mod Service
pub mod Edit
pub mod Status
pub mod Requests
pub mod Effects
pub mod Creation
pub mod Billable
pub mod Drafted
pub mod Invariant
pub mod History
