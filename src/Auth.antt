-- ===== src/Auth.antt =====
-- lib/auth and app/api/auth: accounts, sign-in, and rotating refresh sessions.
pub mod Config
pub mod Tokens
pub mod Accounts
pub mod Login
pub mod Refresh
pub mod Access
pub mod Recovery
pub mod Invitations
