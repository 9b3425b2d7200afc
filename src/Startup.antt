-- ===== src/Startup.antt =====
-- main.go, and the functions that tell a manager which controllers and indexes it has.
mod Calls
mod Wiring
mod Main
pub mod Scheme
pub mod Watches
pub mod Laws
unfoldable pub use Calls.*
unfoldable pub use Wiring.*
unfoldable pub use Main.*
