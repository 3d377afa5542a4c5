-- ===== src/Auth.antt =====
-- src/auth: the logins of the peers, their passwords, and the change of a password.
pub mod Pwd
pub mod Entry
pub mod Store
pub mod Rotation
pub mod File
mod Examples
