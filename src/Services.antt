-- ===== src/Services.antt =====
-- services, packages/contracts and agents/frank-core: the chat request's way to the model and back.
pub mod Contract
pub mod Failures
pub mod Orchestrator
pub mod Api
pub mod Chain
pub mod Success
pub mod Startup
pub mod Health
pub mod Serving
pub mod Ready
pub mod Mock
