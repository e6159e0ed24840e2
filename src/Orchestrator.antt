-- ===== src/Orchestrator.antt =====
-- internal/orchestrator: what each child models is said in its own header.
pub mod Tracking
pub mod Audit
pub mod Naming
pub mod Platform
pub mod Health
pub mod Matching
pub mod Webhooks
pub mod Controller
pub mod Lifecycle
pub mod Logs
pub mod Events
