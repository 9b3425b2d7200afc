-- ===== src/Objects.antt =====
-- The Kubernetes objects that the controllers read and write: those of api/v1alpha2 in full, and of
-- the objects that other projects define the fields that the program names.
mod ForeignTypes
mod Meta
mod ControlPlane
mod Template
mod Status
mod Tenant
mod ClusterApi
pub use ForeignTypes.*
pub use Meta.*
pub use ControlPlane.*
pub use Template.*
unfoldable pub use Status.*
pub use Tenant.*
pub use ClusterApi.*
