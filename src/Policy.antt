-- ===== src/Policy.antt =====
-- The calculation policies: theories, executable stage definitions and dispersion methods.
pub mod Incar
pub mod Theory
pub mod IncarDefaults
pub mod StageDefinitions
pub mod Dispersion
pub mod BaseIncar
