-- ===== src/Growthbook.antt =====
-- internal/growthbook: what the controller does to each kind of document. One module for each file,
-- and for the encodings that they take from Go's standard library.
pub mod Encoding
pub mod User
pub mod Organization
pub mod Feature
pub mod SdkConnection
