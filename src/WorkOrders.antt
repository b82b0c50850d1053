-- ===== src/WorkOrders.antt =====
-- Work orders with their incidents, tasks, notes and line items.
-- modules/work-orders/workOrders.service.ts
pub mod Filters
pub mod Types
pub mod Service
pub mod Tasks
pub mod Listing
pub mod Readiness
pub mod Parsing
pub mod Paging
pub mod Stamps
pub mod TaskLife
