-- ===== src/Controller.antt =====
-- internal/controllers/instance_controller.go: one module for each group of its methods.
pub mod Externals
pub mod Objects
pub mod Secrets
pub mod Tokens
pub mod Watches
pub mod Catalog
pub mod Resources
pub mod Users
pub mod Organizations
pub mod Features
pub mod Clients
pub mod Provider
pub mod Reconciler
