-- ===== src/Scheduling.antt =====
-- Scheduling: booking statuses, bookings, and the routes of crews. modules/scheduling/
pub mod Types
pub mod Routes
pub mod Statuses
pub mod Bookings
pub mod Defaults
pub mod StatusChange
pub mod Reorder
pub mod Stops
