-- ===== src/Auth.antt =====
-- compute_api/auth.py: bearer tokens of the machine API.
pub mod Tokens
pub mod Authenticate
pub mod Headers
pub mod Parts
pub mod Entries
pub mod Accepted
