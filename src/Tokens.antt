-- ===== src/Tokens.antt =====
-- fmd/tokens.py: the tokens of the remote commands. MQTT commands carry an HMAC, SMS commands a
-- TOTP code or a backup code. The digests of `hmac` and `hashlib` are parameters: any function.
pub mod Command
pub mod Totp
pub mod Backup
pub mod SmsCode
pub mod Enrol
