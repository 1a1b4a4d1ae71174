-- ===== src/Safety.antt =====
-- The calls of a reconciliation, under any replies of Kubernetes and MongoDB.
pub mod Permissions
pub mod Resources
pub mod Handlers
pub mod Reconciliation
pub mod Order
pub mod Connection
pub mod Catalog
pub mod Reports
pub mod Outcome
pub mod Requests
