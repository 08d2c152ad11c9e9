-- ===== src/Utils.antt =====
-- src/utils: numbers as text, lower case, HMAC signatures.
pub mod Double
pub mod Number
pub mod Lower
pub mod Signing
