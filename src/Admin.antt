-- ===== src/Admin.antt =====
-- lib/auth/admin.ts and app/api/admin/users: changes of accounts by administrators.
pub mod Registry
pub mod Membership
pub mod Users
pub mod Handlers
pub mod Distinct
pub mod Recoverable
pub mod Governed
pub mod Routes
pub mod Audited
pub mod Reach
pub mod Stale
