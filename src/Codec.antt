-- ===== src/Codec.antt =====
-- The encodings of the standard library on which the obfuscation stands: base64 and UTF-8.
pub mod Base64
pub mod Utf8
