-- ===== src/Watching.antt =====
-- Which objects the controller looks at, and which instances a change wakes.
pub mod Selection
pub mod Requests
pub mod Secrets
