-- ===== src/Documents.antt =====
-- The documents that the controller keeps in GrowthBook's MongoDB: the structs of
-- internal/growthbook/{user,organization,feature,sdkconnection}.go.
pub mod User
pub mod Organization
pub mod Feature
pub mod SdkConnection
