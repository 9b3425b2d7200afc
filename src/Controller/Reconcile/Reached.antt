-- ===== src/Controller/Reconcile/Reached.antt =====
-- How far `Reconcile` gets with an object that is neither paused nor being deleted.
use cluster_api_control_plan.Base.{◌≡◌, Option}
use cluster_api_control_plan.Objects.{Foreign, TenantControlPlane, Cluster, VersionStatus, key_of}
use cluster_api_control_plan.Kube.{Kube}
use cluster_api_control_plan.Controller.Run.{Reconciler, Run}
use cluster_api_control_plan.Controller.Reconcile.Chain.{next}
use cluster_api_control_plan.Controller.Reconcile.Steps.{
  remote_step, tenant_step, address_step, endpoint_step, cluster_step, infrastructure_step,
  wait_step, initialize_step, initialized_step, scale_step, confirm_step, resources_step,
}

-- How far a reconciliation has got, with the values that it has by then.
pub data Point {F : Foreign} (K : Kube F) : Type 0 where
  begun : Point K
  connected : Option K.Client → Point K
  created : Option K.Client → TenantControlPlane F → Point K
  addressed : Option K.Client → TenantControlPlane F → Point K
  published : Option K.Client → TenantControlPlane F → Point K
  found : Option K.Client → TenantControlPlane F → Cluster → Point K
  patched : Option K.Client → TenantControlPlane F → Cluster → Point K
  waited : Option K.Client → TenantControlPlane F → Cluster → VersionStatus → Point K
  marked : Option K.Client → TenantControlPlane F → Cluster → VersionStatus → Point K
  initialized : Option K.Client → TenantControlPlane F → Cluster → VersionStatus → Point K
  counted : Option K.Client → TenantControlPlane F → Cluster → VersionStatus → Point K
  confirmed : Option K.Client → TenantControlPlane F → Cluster → VersionStatus → Point K
  provided : Option K.Client → TenantControlPlane F → Cluster → VersionStatus → Point K

module _ {F : Foreign} (K : Kube F) (r : Reconciler K) (cluster : Cluster) (begin : Run K) where
  -- The steps up to a point lead from the first variables to these.
  pub data Reached : Point K → Run K → Type 0 where
    to_begun : Reached begun begin
    to_connected :
        {run run1 : Run K} {remote : Option K.Client}
        → Reached begun run
        → remote_step K r run ≡ (next remote, run1)
        → Reached (connected remote) run1
    to_created :
        {run run1 : Run K} {remote : Option K.Client} {tcp : TenantControlPlane F}
        → Reached (connected remote) run
        → tenant_step K remote cluster run ≡ (next tcp, run1)
        → Reached (created remote tcp) run1
    to_addressed :
        {run run1 : Run K} {remote : Option K.Client} {tcp : TenantControlPlane F}
        → Reached (created remote tcp) run
        → address_step K tcp.status.control_plane_endpoint run ≡ (next tt, run1)
        → Reached (addressed remote tcp) run1
    to_published :
        {run run1 : Run K} {remote : Option K.Client} {tcp : TenantControlPlane F}
        → Reached (addressed remote tcp) run
        → endpoint_step K tcp.status.control_plane_endpoint run ≡ (next tt, run1)
        → Reached (published remote tcp) run1
    to_found :
        {run run1 : Run K} {remote : Option K.Client} {tcp : TenantControlPlane F} {fresh : Cluster}
        → Reached (published remote tcp) run
        → cluster_step K (key_of cluster.meta) run ≡ (next fresh, run1)
        → Reached (found remote tcp fresh) run1
    to_patched :
        {run run1 : Run K} {remote : Option K.Client} {tcp : TenantControlPlane F} {fresh : Cluster}
        → Reached (found remote tcp fresh) run
        → infrastructure_step K r fresh tcp.status.control_plane_endpoint run ≡ (next tt, run1)
        → Reached (patched remote tcp fresh) run1
    to_waited :
        {run run1 : Run K} {remote : Option K.Client} {tcp : TenantControlPlane F} {fresh : Cluster}
        {v : VersionStatus}
        → Reached (patched remote tcp fresh) run
        → wait_step K fresh tcp run ≡ (next v, run1)
        → Reached (waited remote tcp fresh v) run1
    to_marked :
        {run run1 : Run K} {remote : Option K.Client} {tcp : TenantControlPlane F} {fresh : Cluster}
        {v : VersionStatus}
        → Reached (waited remote tcp fresh v) run
        → initialize_step K v run ≡ (next tt, run1)
        → Reached (marked remote tcp fresh v) run1
    to_initialized :
        {run run1 : Run K} {remote : Option K.Client} {tcp : TenantControlPlane F} {fresh : Cluster}
        {v : VersionStatus}
        → Reached (marked remote tcp fresh v) run
        → initialized_step K run ≡ (next tt, run1)
        → Reached (initialized remote tcp fresh v) run1
    to_counted :
        {run run1 : Run K} {remote : Option K.Client} {tcp : TenantControlPlane F} {fresh : Cluster}
        {v : VersionStatus}
        → Reached (initialized remote tcp fresh v) run
        → scale_step K tcp run ≡ (next tt, run1)
        → Reached (counted remote tcp fresh v) run1
    to_confirmed :
        {run run1 : Run K} {remote : Option K.Client} {tcp : TenantControlPlane F} {fresh : Cluster}
        {v : VersionStatus}
        → Reached (counted remote tcp fresh v) run
        → confirm_step K run ≡ (next tt, run1)
        → Reached (confirmed remote tcp fresh v) run1
    to_provided :
        {run run1 : Run K} {remote : Option K.Client} {tcp : TenantControlPlane F} {fresh : Cluster}
        {v : VersionStatus}
        → Reached (confirmed remote tcp fresh v) run
        → resources_step K remote fresh tcp run ≡ (next tt, run1)
        → Reached (provided remote tcp fresh v) run1
