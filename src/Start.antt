-- ===== src/Start.antt =====
-- main.go, and `SetupWithManager` of internal/controllers/instance_controller.go. The libraries that
-- it calls are steps with any reply.
pub mod Steps
pub mod Options
pub mod Setup
pub mod Main
pub mod Protocol
pub mod Runs
pub mod Following
pub mod Serving
