-- ===== src/Tests.antt =====
-- Runs of the definitions and of the theorems at concrete inputs.
mod Workflows
mod Attempts
mod Machine
mod Tokens
mod Incar
mod TaskSets
mod Submissions
mod StageIncar
mod Considerations
mod Monitoring
mod Resources
mod Identity
mod TaskDirectories
