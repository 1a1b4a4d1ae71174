-- ===== src/Merging.antt =====
-- How the specification of a feature and its document in the database come together.
pub mod Rules
pub mod Environments
pub mod Conversion
pub mod Settling
