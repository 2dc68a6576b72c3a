-- ===== src/Security.antt =====
-- internal/security: the encodings of the standard library that it uses, opaque tokens and their
-- hashes, and passwords.
pub mod Encoding
pub mod Token
pub mod Password
