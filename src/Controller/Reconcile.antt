-- ===== src/Controller/Reconcile.antt =====
-- controllers/kamajicontrolplane_controller.go: `Reconcile`.
mod Chain
mod Steps
mod Main
pub mod Inversion
pub mod Completion
pub mod Early
pub mod Success
pub mod Readiness
pub mod Reached
pub mod Causes
pub mod Progress
pub mod Settled
unfoldable pub use Chain.*
unfoldable pub use Steps.*
unfoldable pub use Main.*
