-- ===== src/Organizations.antt =====
-- Organizations and their owners. modules/organizations/organizations.service.ts
pub mod Slug
pub mod Service
pub mod Kept
pub mod Owned
pub mod SlugForm
