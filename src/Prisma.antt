-- ===== src/Prisma.antt =====
-- The database client, `prisma`, as an interface: its queries' orders, its operations and laws.
mod OrderBy
mod Client
mod Lemmas
mod Derived
pub use OrderBy.*
pub use Client.*
pub use Lemmas.*
unfoldable pub use Derived.*
