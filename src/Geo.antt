-- ===== src/Geo.antt =====
-- Positions of service resources: devices, their pings and the retention of pings.
-- modules/geo-tracking/geoTracking.service.ts, jobs/geoPingCleanup.ts
pub mod Types
pub mod Tracking
pub mod Cleanup
pub mod Retention
pub mod Ingest
