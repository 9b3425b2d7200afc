-- ===== src/Controller/ClusterPatch.antt =====
-- controllers/kamajicontrolplane_controller_cluster_patch.go: the endpoint of the control plane,
-- and how it is written into the KamajiControlPlane and into the infrastructure cluster.
pub mod Endpoint
pub mod Infrastructure
pub mod Safety
