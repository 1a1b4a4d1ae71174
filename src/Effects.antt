-- ===== src/Effects.antt =====
-- What the program asks of the world, and programs as trees of such calls. The Kubernetes client,
-- the MongoDB driver with its BSON codec, the clock and the random source are not part of the
-- repository: each call of them is a constructor of `Call`, and a program goes on with whatever
-- reply comes back, an error included.
mod Errors
mod Calls
mod Programs
pub mod Traces
pub mod Monitors
pub mod Runs
unfoldable pub use Errors.*
pub use Calls.*
unfoldable pub use Programs.*
