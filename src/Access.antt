-- ===== src/Access.antt =====
-- Who may do what: roles and permissions of members, and the middleware that checks them.
-- modules/rbac/, http/middleware/
pub mod Types
pub mod Rbac
pub mod Middleware
pub mod Handler
pub mod Permissions
pub mod Guarded
pub mod Hidden
pub mod Assigned
