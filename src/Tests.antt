-- ===== src/Tests.antt =====
-- Runs on concrete inputs, and the theorems applied to them.
mod Host
mod Memory
mod Platform
mod Auth
mod Tokens
mod Guards
mod Recovery
mod Admin
mod Contact
mod Services
mod Startup
mod Scripts
