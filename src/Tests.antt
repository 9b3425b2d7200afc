-- ===== src/Tests.antt =====
-- The theorems at concrete data, over a small Kubernetes in memory.
mod Fixtures
mod Memory
mod Controller
mod Tenant
mod ExternalCluster
mod Reconcile
mod Managers
mod Passes
mod Progress
mod Deletion
mod Joint
mod Copies
mod Interleavings
mod Ports
mod Startup
mod Updates
