-- ===== src/Rsmp.antt =====
-- src/rsmp: the messages of the RSMP protocol, their fields, and their JSON form.
pub mod Values
pub mod Fields
pub mod Coder
pub mod Descriptions
pub mod Messages
pub mod Arrays
pub mod Versions
pub mod Display
mod Examples
