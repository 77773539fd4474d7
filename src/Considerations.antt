-- ===== src/Considerations.antt =====
-- backend/calculations/dft_u_policy.py and method_considerations.py: what BMD Compute observes of a
-- structure, and the considerations it makes of it.
pub mod DftU
pub mod Frozen
pub mod Detections
pub mod Capabilities
pub mod Method
pub mod Observed
pub mod Outcome
pub mod Resolves
pub mod Runs
pub mod Support
