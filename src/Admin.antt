-- ===== src/Admin.antt =====
-- programs/justies/src/admin: the global states, their configs and the allowlists.
pub mod Configs
pub mod Instructions
pub mod Allowlist
pub mod Updates
pub mod Allowing
