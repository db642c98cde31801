-- ===== src/Settings.antt =====
-- internal/settings/service.go
pub mod EnvFile
pub mod Reading
pub mod Appending
pub mod Updating
pub mod WholeFile
pub mod Apply
pub mod Service
pub mod Values
pub mod EnvPath
pub mod RoundTrip
