-- ===== src/Cyber.antt =====
-- src/cyber: the exchange with a peer. It agrees on a cipher, changes passwords by challenges, and
-- opens to traffic once both sides have sent AllClear.
pub mod Negotiate
pub mod State
pub mod Challenge
pub mod Handle
pub mod Invariant
pub mod Reach
pub mod Answers
pub mod Switch
pub mod LongPassword
pub mod Link
mod Examples
