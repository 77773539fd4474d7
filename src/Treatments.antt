-- ===== src/Treatments.antt =====
-- backend/calculations/default_treatments.py.
pub mod Apply
pub mod Resolve
pub mod Effect
pub mod Resolved
pub mod Total
