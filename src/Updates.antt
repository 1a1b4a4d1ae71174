-- ===== src/Updates.antt =====
-- What the update operations of internal/growthbook write over an existing document, and what of it
-- they keep.
pub mod Upserts
pub mod Users
pub mod Organizations
pub mod Features
pub mod Connections
