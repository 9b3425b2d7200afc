-- ===== src/ExternalCluster.antt =====
-- pkg/externalclusterreference: the names by which a KamajiControlPlane finds its kubeconfig and
-- its TenantControlPlane in another cluster, and the store of running managers.
pub mod Names
pub mod Store
