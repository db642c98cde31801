-- ===== src/Engine.antt =====
-- internal/deploy/engine.go, the deploy engine.
pub mod Interface
pub mod EnvVars
pub mod Finish
pub mod Execute
pub mod Queue
pub mod Request
mod Harmless
mod AfterStart
mod BeforeStart
pub mod Terminal
pub mod Containers
pub mod BlueGreen
pub mod Health
pub mod Accept
pub mod OneAtATime
pub mod Rollback
pub mod Required
