-- ===== src/Keys.antt =====
-- The secrets that the controller derives: connection keys, random keys, password hashes.
pub mod Tokens
pub mod Random
pub mod Hex
pub mod Passwords
