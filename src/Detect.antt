-- ===== src/Detect.antt =====
-- internal/builder/detect: the type of a project, and the Dockerfile that is written for it.
pub mod Plan
pub mod Scanning
pub mod Node
pub mod GoMain
pub mod Java
pub mod Dockerfile
pub mod Providers
pub mod Choice
pub mod Whole
pub mod MainDepth
pub mod MainPackages
pub mod Target
