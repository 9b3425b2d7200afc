-- ===== src/Controller.antt =====
-- controllers: the reconciler of KamajiControlPlane objects and its parts.
pub mod Run
pub mod Conditions
pub mod ExternalReference
pub mod Finalizer
pub mod ClusterPatch
pub mod Tenant
pub mod Resources
pub mod Managers
pub mod Push
pub mod Reconcile
