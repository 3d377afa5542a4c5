-- ===== src/Crypt.antt =====
-- src/crypt: the two text encodings of binary data, hexadecimal (bcd) and base64.
pub mod Bcd
pub mod Base64
pub mod Aes
mod Examples
