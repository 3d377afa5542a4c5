-- ===== src/Coder.antt =====
-- src/coder: the messages that two gateways exchange to agree on a cipher and on passwords.
pub mod Message
pub mod Secrets
pub mod Container
pub mod Agreement
mod Examples
