-- ===== src/Kube.antt =====
-- What the controllers use of Kubernetes, and the laws of it that theorems rely on.
mod Interface
pub mod Laws
pub use Interface.*
