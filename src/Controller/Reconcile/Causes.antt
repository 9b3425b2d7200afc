-- ===== src/Controller/Reconcile/Causes.antt =====
-- Why `Reconcile` returns early for an object that is neither paused nor being deleted.
pub mod Publication
pub mod Settling
pub mod Steps
use cluster_api_control_plan.Base.{
  ◌≡◌, Option, none, some, String, ◌==◌, Bool, true, false, not, ◌&&◌,
}
use cluster_api_control_plan.Errors.{
  Error, err, ok, sentinel, err_unprocessed_control_plane_endpoint, is_enqueue_back, is_not_found,
}
use cluster_api_control_plan.Objects.{
  Foreign, TenantControlPlane, Cluster, VersionStatus, ExternalClusterReference,
  is_control_plane_initialized, key_of,
}
use cluster_api_control_plan.Kube.{Kube}
use cluster_api_control_plan.Kube.Laws.{timeless?}
use cluster_api_control_plan.Controller.Run.{Reconciler, Run, update_kamaji_control_plane_status}
use cluster_api_control_plan.Controller.Conditions.{
  found_external_cluster_reference, tenant_control_plane_created,
  tenant_control_plane_address_ready, control_plane_endpoint_patched,
  infrastructure_cluster_patched, kamaji_control_plane_initialized, kamaji_control_plane_ready,
  kubeadm_resources_created,
}
use cluster_api_control_plan.Controller.Conditions.Laws.{report}
use cluster_api_control_plan.Controller.ExternalReference.{
  extract_remote_client, skip_infra_cluster_patch,
}
use cluster_api_control_plan.Controller.Finalizer.{handle_finalizer}
use cluster_api_control_plan.Controller.Tenant.{create_or_update_tenant_control_plane}
use cluster_api_control_plan.Controller.ClusterPatch.Endpoint.{patch_control_plane_endpoint}
use cluster_api_control_plan.Controller.ClusterPatch.Infrastructure.{patch_cluster}
use cluster_api_control_plan.Controller.Resources.{create_required_resources}
use cluster_api_control_plan.Controller.Reconcile.Chain.{
  Outcome, finished, requeue_after, failed, next,
}
use cluster_api_control_plan.Controller.Reconcile.Reached.{
  Point, begun, connected, created, addressed, published, found, patched, waited, marked,
  initialized, counted, confirmed, provided, Reached,
}
use cluster_api_control_plan.Controller.Reconcile.Steps.{
  deref, is_ready, with_ready, scaled, mark_initialized, on_world, tracked, remote_step,
  tenant_step, address_step, endpoint_step, cluster_step, infrastructure_step, wait_step,
  initialize_step, initialized_step, scale_step, confirm_step, resources_step,
}

module _ {F : Foreign} (K : Kube F) (r : Reconciler K) (cluster : Cluster) (begin : Run K) where
  -- The tracked call that a reconciliation made with these variables has failed: the type of its
  -- condition, its error, and what `Reconcile` returns.
  pub data Failure : Run K → String → Error → Outcome → Type 0 where
    unconnected :
        {run : Run K} {e : Error} (ref : ExternalClusterReference)
        → Reached K r cluster begin begun run
        → run.kcp.spec.deployment.external_cluster_reference ≡ some ref
        → (extract_remote_client K r run.kcp run.world).0 ≡ err e
        → Failure run found_external_cluster_reference e (failed e)
    not_created :
        {run : Run K} {e : Error} {remote : Option K.Client}
        → Reached K r cluster begin (connected remote) run
        → (create_or_update_tenant_control_plane K remote cluster run.kcp run.world).0 ≡ err e
        → Failure run tenant_control_plane_created e (failed e)
    no_address :
        {run : Run K} {remote : Option K.Client} {tcp : TenantControlPlane F}
        → Reached K r cluster begin (created remote tcp) run
        → (tcp.status.control_plane_endpoint == "") ≡ true
        → Failure run tenant_control_plane_address_ready
            (sentinel err_unprocessed_control_plane_endpoint)
            (requeue_after 1)
    not_published :
        {run : Run K} {e : Error} {remote : Option K.Client} {tcp : TenantControlPlane F}
        → Reached K r cluster begin (addressed remote tcp) run
        → (patch_control_plane_endpoint K tcp.status.control_plane_endpoint run).0 ≡ err e
        → Failure run control_plane_endpoint_patched e (failed e)
    not_patched :
        {run : Run K} {e : Error} {remote : Option K.Client} {tcp : TenantControlPlane F}
        {fresh : Cluster}
        → Reached K r cluster begin (found remote tcp fresh) run
        → r.enabled skip_infra_cluster_patch ≡ false
        → (patch_cluster K r fresh run.kcp tcp.status.control_plane_endpoint run.world).0 ≡ err e
        → Failure run infrastructure_cluster_patched e (failed e)
    not_marked :
        {run : Run K} {e : Error} {remote : Option K.Client} {tcp : TenantControlPlane F}
        {fresh : Cluster} {v : VersionStatus}
        → Reached K r cluster begin (waited remote tcp fresh v) run
        → (is_ready v && not (is_control_plane_initialized run.kcp.status)) ≡ true
        → (mark_initialized K run).0 ≡ err e
        → Failure run kamaji_control_plane_initialized e (failed e)
    not_counted :
        {run : Run K} {e : Error} {remote : Option K.Client} {tcp : TenantControlPlane F}
        {fresh : Cluster} {v : VersionStatus}
        → Reached K r cluster begin (initialized remote tcp fresh v) run
        → (update_kamaji_control_plane_status K (scaled K tcp.status) run).0 ≡ err e
        → Failure run kamaji_control_plane_initialized e (failed e)
    -- The Secrets that are needed are not there yet,
    awaited :
        {run : Run K} {e : Error} {remote : Option K.Client} {tcp : TenantControlPlane F}
        {fresh : Cluster} {v : VersionStatus}
        → Reached K r cluster begin (confirmed remote tcp fresh v) run
        → (create_required_resources K remote fresh run.kcp tcp run.world).0 ≡ err e
        → is_enqueue_back e ≡ true
        → Failure run kubeadm_resources_created e (requeue_after 1)
    -- or something else has failed.
    not_provided :
        {run : Run K} {e : Error} {remote : Option K.Client} {tcp : TenantControlPlane F}
        {fresh : Cluster} {v : VersionStatus}
        → Reached K r cluster begin (confirmed remote tcp fresh v) run
        → (create_required_resources K remote fresh run.kcp tcp run.world).0 ≡ err e
        → is_enqueue_back e ≡ false
        → Failure run kubeadm_resources_created e (failed e)
    not_reported :
        {run : Run K} {e : Error} {remote : Option K.Client} {tcp : TenantControlPlane F}
        {fresh : Cluster} {v : VersionStatus}
        → Reached K r cluster begin (provided remote tcp fresh v) run
        → (update_kamaji_control_plane_status K (with_ready K v) run).0 ≡ err e
        → Failure run kamaji_control_plane_ready e (failed e)

  -- Why a reconciliation returns early, with the variables that it leaves for the deferred function.
  pub data Cause : Outcome → Run K → Type 0 where
    -- A tracked call has failed, and the condition of its type reports the error.
    told :
        {run run' : Run K} {t : String} {e : Error} {o : Outcome}
        → Failure run t e o
        → timeless? (K.find_status_condition run'.conditions t)
          ≡ some (report {A = Unit {0}} t run.kcp.meta.generation (err e))
        → Cause o run'
    -- The finalizer could not be added after the client was there.
    unfinalized :
        {run run1 run' : Run K} {e : Error} (client : K.Client)
        → Reached K r cluster begin begun run
        → tracked K found_external_cluster_reference failed
            (on_world K (extract_remote_client K r))
            run
          ≡ (next client, run1)
        → handle_finalizer K run1.kcp run1.world ≡ (err e, (run'.kcp, run'.world))
        → Cause (failed e) run'
    -- The Cluster, when it was read again, was gone, or could not be read.
    gone :
        {run run' : Run K} {remote : Option K.Client} {tcp : TenantControlPlane F} (e : Error)
        → Reached K r cluster begin (published remote tcp) run
        → K.get_cluster (key_of cluster.meta) run.world ≡ (err e, run'.world)
        → is_not_found e ≡ true
        → Cause finished run'
    unread :
        {run run' : Run K} {remote : Option K.Client} {tcp : TenantControlPlane F} {e : Error}
        → Reached K r cluster begin (published remote tcp) run
        → K.get_cluster (key_of cluster.meta) run.world ≡ (err e, run'.world)
        → is_not_found e ≡ false
        → Cause (failed e) run'
    -- The Cluster, as it was read again, has no host, or its infrastructure is not provisioned, or
    -- the TenantControlPlane has no version status.
    no_host :
        {run : Run K} {remote : Option K.Client} {tcp : TenantControlPlane F} {fresh : Cluster}
        → Reached K r cluster begin (patched remote tcp fresh) run
        → (fresh.control_plane_endpoint.host == "") ≡ true
        → Cause (requeue_after 1) run
    not_provisioned :
        {run : Run K} {remote : Option K.Client} {tcp : TenantControlPlane F} {fresh : Cluster}
        → Reached K r cluster begin (patched remote tcp fresh) run
        → deref fresh.infrastructure_provisioned ≡ false
        → Cause (requeue_after 1) run
    no_version :
        {run : Run K} {remote : Option K.Client} {tcp : TenantControlPlane F} {fresh : Cluster}
        → Reached K r cluster begin (patched remote tcp fresh) run
        → tcp.status.version_status ≡ none
        → Cause (requeue_after 1) run
    -- The object is not initialized.
    not_initialized :
        {run : Run K} {remote : Option K.Client} {tcp : TenantControlPlane F} {fresh : Cluster}
        {v : VersionStatus}
        → Reached K r cluster begin (marked remote tcp fresh v) run
        → is_control_plane_initialized run.kcp.status ≡ false
        → Cause (requeue_after 1) run
