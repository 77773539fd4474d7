-- ===== src/Registry.antt =====
-- backend/calculations/registry.py: which stages and workflows are accepted.
pub mod Errors
pub mod Support
pub mod Workflow
pub mod Compatibility
pub mod DesiredOutputs
pub mod StageDirectories
