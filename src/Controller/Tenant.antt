-- ===== src/Controller/Tenant.antt =====
-- controllers/kamajicontrolplane_controller_tcp.go: how a TenantControlPlane is made of a Cluster
-- and a KamajiControlPlane.
mod Metadata
mod Settings
mod Exposure
mod Upsert
pub mod Annotations
pub mod Outcome
pub mod Sans
pub mod Convergence
pub mod Repetition
unfoldable pub use Metadata.*
unfoldable pub use Settings.*
unfoldable pub use Exposure.*
unfoldable pub use Upsert.*
