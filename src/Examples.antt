-- ===== src/Examples.antt =====
-- Concrete inputs: a Docker host, a database and a broadcaster, and the theorems applied to them.
mod Values
mod Laws
mod Engine
mod Store
mod Broadcast
mod Handlers
mod Webhook
mod Backups
mod Settings
mod Services
mod Auth
mod Detect
mod Builder
mod DeployApi
mod Config
