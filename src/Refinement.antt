-- ===== src/Refinement.antt =====
-- The updates against a store that keeps what it is told.
pub mod Shelf
pub mod FeatureShelf
pub mod Landing
pub mod Upsert
pub mod Users
pub mod Passwords
pub mod Provisioning
pub mod Cluster
pub mod Retirement
pub mod Registration
pub mod Loops
pub mod Selecting
pub mod Handling
pub mod Population
pub mod Membership
pub mod Rollout
pub mod Access
pub mod Frames
pub mod World
pub mod Tenants
pub mod Rounds
pub mod Convergence
pub mod Steps
pub mod Stability
pub mod Stopping
pub mod Connected
pub mod Conclusion
pub mod Requests
pub mod Organizations
pub mod Connections
pub mod Features
