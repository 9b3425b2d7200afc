-- ===== src/Copies.antt =====
-- api/v1alpha2/zz_generated.deepcopy.go: the deep copies of the API types. Here a pointer, a slice and
-- a map are references with an address, nil being none, so that sharing is seen. What is free is known
-- by the least free address. DeepCopyInto begins with `*out = *in`, so a field that is not copied
-- afterwards keeps the references of the original.
mod Memory
mod Foreign
mod Exposure
mod Network
mod Addons
mod Components
mod Deployment
mod Status
mod Spec
mod ControlPlane
mod Template
pub mod Separation
pub mod Objects
pub use Memory.*
pub use Foreign.*
unfoldable pub use Exposure.*
unfoldable pub use Network.*
unfoldable pub use Addons.*
unfoldable pub use Components.*
unfoldable pub use Deployment.*
unfoldable pub use Status.*
unfoldable pub use Spec.*
unfoldable pub use ControlPlane.*
unfoldable pub use Template.*
