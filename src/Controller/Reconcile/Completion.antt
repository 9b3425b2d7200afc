-- ===== src/Controller/Reconcile/Completion.antt =====
-- What holds when `Reconcile` gets to its end.
use cluster_api_control_plan.Controller.Reconcile.Chain.{failed, next}
use cluster_api_control_plan.Controller.Conditions.{
  infrastructure_cluster_patched, track_condition_type,
}
use cluster_api_control_plan.Controller.Run.{update_kamaji_control_plane_status, Reconciler, Run}
use cluster_api_control_plan.Controller.Reconcile.Steps.{
  with_ready, on_world, check_address, deref, report_ready, set_available, remote_step, tenant_step,
  address_step, endpoint_step, cluster_step, infrastructure_step, wait_step, initialize_step,
  initialized_step, scale_step, confirm_step, resources_step, ready_step,
}
use cluster_api_control_plan.Base.{
  ◌≡◌, String, ◌==◌, true, false, Option, some, ◌⊎◌, inl, inr, Bool-cases, arith,
}
use cluster_api_control_plan.Errors.{ok, Result-cases}
use cluster_api_control_plan.Objects.{
  Foreign, KamajiControlPlane, TenantControlPlane, Cluster, ObjectKey, VersionStatus, key_of,
}
use cluster_api_control_plan.Kube.{Kube}
use cluster_api_control_plan.Controller.ExternalReference.{skip_infra_cluster_patch}
use cluster_api_control_plan.Controller.Tenant.{create_or_update_tenant_control_plane}
use cluster_api_control_plan.Controller.ClusterPatch.Infrastructure.{patch_cluster}
use cluster_api_control_plan.Controller.Resources.{create_required_resources}
use cluster_api_control_plan.Controller.Reconcile.Main.{steps, report_steps, settle_steps}
use cluster_api_control_plan.Controller.Reconcile.Inversion.{
  next-bind, next-or_return, next-tracked,
}

module _ {F : Foreign} (K : Kube F) where
  pub next-tenant_step :
      (remote : Option K.Client) (cluster : Cluster) (run : Run K) {run' : Run K}
      {tcp : TenantControlPlane F}
      → tenant_step K remote cluster run ≡ (next tcp, run')
      → (create_or_update_tenant_control_plane K remote cluster run.kcp run.world).0 ≡ ok tcp
  unfolding tenant_step
  next-tenant_step remote cluster run h = (next-tracked K _ _ _ h).0

  next-address_step :
      (endpoint : String) (run : Run K) {run' : Run K}
      → address_step K endpoint run ≡ (next tt, run')
      → (endpoint == "") ≡ false
  unfolding address_step
  next-address_step endpoint run h =
      let e = (next-tracked K _ _ (check_address K endpoint) h).0 in ground arith

  pub next-cluster_step :
      (key : ObjectKey) (run : Run K) {run' : Run K} {cluster : Cluster}
      → cluster_step K key run ≡ (next cluster, run')
      → (K.get_cluster key run.world).0 ≡ ok cluster
  unfolding cluster_step
  next-cluster_step key run h =
      let e = next-or_return K _ (on_world K (λ _. K.get_cluster key)) h in ground arith

  next-wait_step :
      (cluster : Cluster) (tcp : TenantControlPlane F) (run : Run K) {run' : Run K}
      {v : VersionStatus}
      → wait_step K cluster tcp run ≡ (next v, run')
      → ((cluster.control_plane_endpoint.host == "") ≡ false)
        × (deref cluster.infrastructure_provisioned ≡ true)
        × (tcp.status.version_status ≡ some v)
  unfolding wait_step
  next-wait_step cluster tcp run h = elim (Bool-cases (cluster.control_plane_endpoint.host == "")) [
    | inl y ↦ ground arith
    | inr n ↦ ground arith
  ]

  ok-create_required_resources :
      (remote : Option K.Client) (cluster : Cluster) (kcp : KamajiControlPlane F)
      (tcp : TenantControlPlane F) (w : K.World)
      → (create_required_resources K remote cluster kcp tcp w).0 ≡ ok tt
      → ((tcp.status.admin_secret_name == "") ≡ false) × ((tcp.status.ca_secret_name == "") ≡ false)
  unfolding create_required_resources
  ok-create_required_resources remote cluster kcp tcp w h = ground arith

  next-resources_step :
      (remote : Option K.Client) (cluster : Cluster) (tcp : TenantControlPlane F) (run : Run K)
      {run' : Run K}
      → resources_step K remote cluster tcp run ≡ (next tt, run')
      → ((tcp.status.admin_secret_name == "") ≡ false) × ((tcp.status.ca_secret_name == "") ≡ false)
  unfolding resources_step
  next-resources_step remote cluster tcp run h =
      ok-create_required_resources remote cluster run.kcp tcp run.world (next-tracked K _ _ _ h).0

  next-ready_step :
      (v : VersionStatus) (run : Run K) {run' : Run K}
      → ready_step K v run ≡ (next tt, run')
      → ((update_kamaji_control_plane_status K (with_ready K v) run).0 ≡ ok tt)
        × (run'.kcp ≡ (update_kamaji_control_plane_status K (with_ready K v) run).1.kcp)
  unfolding ready_step report_ready set_available track_condition_type
  next-ready_step v run h =
      elim (Result-cases (update_kamaji_control_plane_status K (with_ready K v) run).0) [
        | inr (e, q) ↦ ground arith
        | inl (u, q) ↦ (ground arith, ground arith)
      ]

  next-infrastructure_step :
      (r : Reconciler K) (cluster : Cluster) (endpoint : String) (run : Run K) {run' : Run K}
      → infrastructure_step K r cluster endpoint run ≡ (next tt, run')
      → (r.enabled skip_infra_cluster_patch ≡ true)
        ⊎ ((patch_cluster K r cluster run.kcp endpoint run.world).0 ≡ ok tt)
  unfolding infrastructure_step
  next-infrastructure_step r cluster endpoint run {run'} h =
      elim (Bool-cases (r.enabled skip_infra_cluster_patch)) [
        | inl y ↦ inl y
        | inr n ↦
            inr
              (next-tracked K infrastructure_cluster_patched failed
                (on_world K (λ kcp. patch_cluster K r cluster kcp endpoint)) {run = run}
                {run' = run'} (ground arith)).0
      ]

  -- The TenantControlPlane and the Cluster of a run that got to the end.
  pub record IsComplete (r : Reconciler K) (cluster : Cluster) (run run' : Run K) : Type 0 where
    pub remote : Option K.Client
    pub tcp : TenantControlPlane F
    pub fresh : Cluster
    pub version : VersionStatus
    pub before : Run K
    pub created : Run K
    pub addressed : Run K
    pub between : Run K
    pub patching : Run K
    -- The variables at those points of the run.
    pub to_before : remote_step K r run ≡ (next remote, before)
    pub to_created : tenant_step K remote cluster before ≡ (next tcp, created)
    pub to_addressed :
        address_step K tcp.status.control_plane_endpoint created ≡ (next tt, addressed)
    pub to_between :
        endpoint_step K tcp.status.control_plane_endpoint addressed ≡ (next tt, between)
    pub to_patching : cluster_step K (key_of cluster.meta) between ≡ (next fresh, patching)
    pub is_created :
        (create_or_update_tenant_control_plane K remote cluster before.kcp before.world).0 ≡ ok tcp
    pub is_published : (tcp.status.control_plane_endpoint == "") ≡ false
    pub is_read : (K.get_cluster (key_of cluster.meta) between.world).0 ≡ ok fresh
    pub is_patched :
        (r.enabled skip_infra_cluster_patch ≡ true)
        ⊎ ((patch_cluster K r fresh patching.kcp tcp.status.control_plane_endpoint patching.world).0
            ≡ ok tt)
    pub has_host : (fresh.control_plane_endpoint.host == "") ≡ false
    pub is_provisioned : deref fresh.infrastructure_provisioned ≡ true
    pub has_version : tcp.status.version_status ≡ some version
    pub has_secrets :
        ((tcp.status.admin_secret_name == "") ≡ false) × ((tcp.status.ca_secret_name == "") ≡ false)
    pub reporting : Run K
    pub is_reported :
        (update_kamaji_control_plane_status K (with_ready K version) reporting).0 ≡ ok tt
    pub is_answered :
        run'.kcp ≡ (update_kamaji_control_plane_status K (with_ready K version) reporting).1.kcp

  -- The steps get to their end only if all of this holds: the TenantControlPlane was created or
  -- updated and has an endpoint and a version; the Cluster, read again after that, has a host and a
  -- provisioned infrastructure, which was patched or checked unless that is switched off; both
  -- Secrets of Kamaji are named; and the server has accepted the readiness of the
  -- KamajiControlPlane, which may be that it is not ready.
  pub steps-IsComplete :
      (r : Reconciler K) (cluster : Cluster) (run : Run K) {run' : Run K}
      → steps K r cluster run ≡ (next tt, run')
      → IsComplete r cluster run run'
  unfolding steps report_steps settle_steps
  steps-IsComplete r cluster run h =
      let (remote, r1, q1, h1) = next-bind K (remote_step K r) _ h in
      let (tcp, r2, q2, h2) = next-bind K (tenant_step K remote cluster) _ h1 in
      let (u3, r3, q3, h3) = next-bind K (address_step K tcp.status.control_plane_endpoint) _ h2 in
      let (u4, r4, q4, h4) = next-bind K (endpoint_step K tcp.status.control_plane_endpoint) _ h3 in
      let (fresh, r5, q5, h5) = next-bind K (cluster_step K (key_of cluster.meta)) _ h4 in
      let (u6, r6, q6, h6) =
        next-bind K (infrastructure_step K r fresh tcp.status.control_plane_endpoint) _ h5 in
      let (v, r7, q7, h7) = next-bind K (wait_step K fresh tcp) _ h6 in
      let (u8, r8, q8, h8) = next-bind K (initialize_step K v) _ h7 in
      let (u9, r9, q9, h9) = next-bind K (initialized_step K) _ h8 in
      let (u10, r10, q10, h10) = next-bind K (scale_step K tcp) _ h9 in
      let (u11, r11, q11, h11) = next-bind K (confirm_step K) _ h10 in
      let (u12, r12, q12, h12) = next-bind K (resources_step K remote fresh tcp) _ h11 in
      let (host, provisioned, version) = next-wait_step fresh tcp r6 q7 in
      record {
        remote = remote;
        tcp = tcp;
        fresh = fresh;
        version = v;
        before = r1;
        created = r2;
        addressed = r3;
        to_before = q1;
        to_created = q2;
        to_addressed = q3;
        to_between = q4;
        to_patching = q5;
        between = r4;
        patching = r5;
        is_created = next-tenant_step remote cluster r1 q2;
        is_published = next-address_step tcp.status.control_plane_endpoint r2 q3;
        is_read = next-cluster_step (key_of cluster.meta) r4 q5;
        is_patched = next-infrastructure_step r fresh tcp.status.control_plane_endpoint r5 q6;
        has_host = host;
        is_provisioned = provisioned;
        has_version = version;
        has_secrets = next-resources_step remote fresh tcp r11 q12;
        reporting = r12;
        is_reported = (next-ready_step v r12 h12).0;
        is_answered = (next-ready_step v r12 h12).1;
      }
