-- ===== src/Controller/Reconcile/Progress/Steps.antt =====
-- The steps up to the last go on.
use cluster_api_control_plan.Base.{
  ◌≡◌, ◌∙◌, refl, ap, arith, String, List, ◌==◌, true, false, Option, Bool-cases, inl, inr, ◌⊎◌,
}
use cluster_api_control_plan.Base.Int.{ℤ}
use cluster_api_control_plan.Errors.{ok}
use cluster_api_control_plan.Objects.{
  Foreign, TenantControlPlane, Cluster, OwnerReference, version_ready, key_of,
  is_control_plane_initialized, set_control_plane_initialized, KamajiControlPlaneStatus,
  is-set_control_plane_initialized,
}
use cluster_api_control_plan.Kube.{Kube}
use cluster_api_control_plan.Controller.Run.{Run, Reconciler, update_kamaji_control_plane_status}
use cluster_api_control_plan.Controller.Conditions.{
  kamaji_control_plane_initialized, infrastructure_cluster_patched, kubeadm_resources_created,
}
use cluster_api_control_plan.Controller.ExternalReference.{skip_infra_cluster_patch}
use cluster_api_control_plan.Controller.ClusterPatch.Endpoint.{
  control_plane_endpoint, patch_control_plane_endpoint,
}
use cluster_api_control_plan.Controller.ClusterPatch.Infrastructure.{patch_cluster}
use cluster_api_control_plan.Controller.Resources.{create_required_resources}
use cluster_api_control_plan.Controller.Tenant.{create_or_update_tenant_control_plane, check_sans}
use cluster_api_control_plan.Controller.Reconcile.Chain.{failed}
use cluster_api_control_plan.Controller.Reconcile.Steps.{
  tenant_step, address_step, endpoint_step, cluster_step, infrastructure_step, wait_step,
  initialize_step, initialized_step, scale_step, confirm_step, resources_step, mark_initialized,
  on_kcp, on_world, check_address, scaled, tracked, back_or_fail,
}
use cluster_api_control_plan.Controller.Reconcile.Progress.{
  Fixed, IsFit, IsServed, IsPatchable, IsProvisioned, IsPublished, IsReached,
}
use cluster_api_control_plan.Controller.Reconcile.Progress.Chain.{
  Proceeds, Proceeds-tracked, Succeeds-track,
}
use cluster_api_control_plan.Controller.Reconcile.Progress.Updates.{
  status-Succeeds, patch_control_plane_endpoint-Succeeds,
}
use cluster_api_control_plan.Controller.Reconcile.Progress.Upserts.{
  create_or_update_tenant_control_plane-ok, create_required_resources-ok,
}
use cluster_api_control_plan.Controller.Reconcile.Progress.Infrastructure.{patch_cluster-ok}

module _ {F : Foreign} (K : Kube F) (a : Fixed F) {Good : K.World → Type 0}
    {IsFree : List OwnerReference → Type 0} {cluster : Cluster} {remote : Option K.Client}
    (v : IsServed K a Good remote IsFree cluster) where
  -- The variables stand for a fit object in a good world.
  abbrev pub Healthy : Run K → Type 0
  Healthy run = Good run.world × IsFit K a run.kcp

  pub tenant-Proceeds :
      (r : Reconciler K)
      → IsReached K a Good r remote
      → check_sans a.network.cert_sans ≡ ok tt
      → (run : Run K) → Healthy run
      → Proceeds K
          (tenant_step K remote cluster)
          run
          (λ tcp run'. Good run'.world × (IsPublished K a tcp × IsFit K a run'.kcp))
  unfolding tenant_step
  tenant-Proceeds r reached sans run (good, i) =
      let (tcp, kcp', w', e, (published, i', good')) =
        create_or_update_tenant_control_plane-ok K a v r reached sans run.kcp run.world i good in
      Proceeds-tracked K Good v.ticks _ _
        (on_kcp K (create_or_update_tenant_control_plane K remote cluster))
        (λ t kcp. IsPublished K a t × IsFit K a kcp)
        (tcp, record run { kcp = kcp'; world = w' }, ground (arith, e), (good', (published, i')))

  pub address-Proceeds :
      (endpoint : String) (run : Run K)
      → (endpoint == "") ≡ false
      → Healthy run
      → Proceeds K (address_step K endpoint) run (λ _ run'. Healthy run')
  unfolding address_step
  address-Proceeds endpoint run some_address h =
      Proceeds-tracked K Good v.ticks _ _ (check_address K endpoint) (λ _ kcp. IsFit K a kcp)
        (tt, run, ground (arith, some_address), h)

  pub endpoint-Proceeds :
      (endpoint : String) (run : Run K) {chosen : String × ℤ}
      → control_plane_endpoint run.kcp endpoint ≡ ok chosen
      → Healthy run
      → Proceeds K (endpoint_step K endpoint) run (λ _ run'. Healthy run')
  unfolding endpoint_step
  endpoint-Proceeds endpoint run parsed (good, i) =
      Proceeds-tracked K Good v.ticks _ _ (patch_control_plane_endpoint K endpoint)
        (λ _ kcp. IsFit K a kcp)
        (patch_control_plane_endpoint-Succeeds K a v endpoint run good i parsed)

  pub cluster-Proceeds :
      (run : Run K)
      → Healthy run
      → Proceeds K
          (cluster_step K (key_of cluster.meta))
          run
          (λ fresh run'. IsProvisioned K a fresh × Healthy run')
  unfolding cluster_step
  cluster-Proceeds run (good, i) =
      let (fresh, w', e, p, good') = v.reads_cluster run.world good in
      (fresh, record run { world = w' }, ground (arith, e), (p, (good', i)))

  pub infrastructure-Proceeds :
      {IsObject : K.Unstructured → Type 0} (r : Reconciler K) (fresh : Cluster) (endpoint : String)
      (run : Run K) {chosen : String × ℤ}
      → (r.enabled skip_infra_cluster_patch ≡ true) ⊎ IsPatchable K a Good IsObject
      → control_plane_endpoint run.kcp endpoint ≡ ok chosen
      → IsProvisioned K a fresh
      → Healthy run
      → Proceeds K (infrastructure_step K r fresh endpoint) run (λ _ run'. Healthy run')
  unfolding infrastructure_step
  infrastructure-Proceeds r fresh endpoint run (inl skipped) parsed p h =
      (tt, run, ground (arith, skipped), h)
  infrastructure-Proceeds r fresh endpoint run (inr u) parsed p (good, i) =
      elim (Bool-cases (r.enabled skip_infra_cluster_patch)) [
        | inl y ↦ (tt, run, ground (arith, y), (good, i))
        | inr n ↦
            let (w', e, good') =
              patch_cluster-ok K a u r fresh run.kcp endpoint run.world parsed p good in
            let (x, run', e', h') =
              Proceeds-tracked K Good v.ticks infrastructure_cluster_patched failed
                (on_world K (λ kcp. patch_cluster K r fresh kcp endpoint)) {run = run}
                (λ _ kcp. IsFit K a kcp)
                (tt, record run { world = w' }, ground (arith, e), (good', i)) in
            (x, run', ground (arith, n, e'), h')
      ]

  pub wait-Proceeds :
      (fresh : Cluster) (tcp : TenantControlPlane F) (run : Run K)
      → IsProvisioned K a fresh
      → IsPublished K a tcp
      → Healthy run
      → Proceeds K (wait_step K fresh tcp) run (λ x run'. (x ≡ version_ready) × Healthy run')
  unfolding wait_step
  wait-Proceeds fresh tcp run p q h =
      (version_ready, run, ground (arith, p.has_host, p.is_provisioned, q.has_version), (refl, h))

  status-Proceeds :
      (t : String) (modifier : KamajiControlPlaneStatus → KamajiControlPlaneStatus) (run : Run K)
      → Healthy run
      → Proceeds K
          (tracked K t failed (update_kamaji_control_plane_status K modifier))
          run
          (λ _ run'.
            Good run'.world
            × (IsFit K a run'.kcp
                × ((old : KamajiControlPlaneStatus) × (run'.kcp.status ≡ modifier old))))
  status-Proceeds t modifier run (good, i) =
      Proceeds-tracked K Good v.ticks t failed (update_kamaji_control_plane_status K modifier)
        (λ _ kcp. IsFit K a kcp × ((old : KamajiControlPlaneStatus) × (kcp.status ≡ modifier old)))
        (status-Succeeds K a v modifier run good i)

  abbrev pub IsInitialized : Run K → Type 0
  IsInitialized run = is_control_plane_initialized run.kcp.status ≡ true

  pub initialize-Proceeds :
      (run : Run K)
      → Healthy run
      → Proceeds K
          (initialize_step K version_ready)
          run
          (λ _ run'. IsInitialized run' × Healthy run')
  unfolding initialize_step
  initialize-Proceeds run h = elim (Bool-cases (is_control_plane_initialized run.kcp.status)) [
    | inl y ↦ (tt, run, ground (arith, y), (y, h))
    | inr n ↦
        let (x, run', e, (good', (i', (old, q)))) =
          status-Proceeds kamaji_control_plane_initialized (set_control_plane_initialized true) run
            h in
        (
          x,
          run',
          ground (arith, n, e),
          (
            ap is_control_plane_initialized q ∙ is-set_control_plane_initialized true old,
            (good', i'),
          ),
        )
  ]

  pub initialized-Proceeds :
      (run : Run K)
      → IsInitialized run
      → Healthy run
      → Proceeds K (initialized_step K) run (λ _ run'. Healthy run')
  unfolding initialized_step
  initialized-Proceeds run y h = (tt, run, ground (arith, y), h)

  pub scale-Proceeds :
      (tcp : TenantControlPlane F) (run : Run K)
      → Healthy run
      → Proceeds K (scale_step K tcp) run (λ _ run'. Healthy run')
  unfolding scale_step
  scale-Proceeds tcp run h =
      let (x, run', e, (good', (i', q))) =
        status-Proceeds kamaji_control_plane_initialized (scaled K tcp.status) run h in
      (x, run', e, (good', i'))

  pub confirm-Proceeds :
      (run : Run K) → Healthy run → Proceeds K (confirm_step K) run (λ _ run'. Healthy run')
  unfolding confirm_step
  confirm-Proceeds run (good, i) =
      let (x, run', e, (good', (i', q))) =
        Succeeds-track K Good v.ticks kamaji_control_plane_initialized run.kcp.meta.generation
          (mark_initialized K) {run = run}
          (λ _ kcp.
            IsFit K a kcp
            × ((old : KamajiControlPlaneStatus) × (kcp.status
                  ≡ set_control_plane_initialized true old)))
          (status-Succeeds K a v (set_control_plane_initialized true) run good i) in
      (tt, run', ground (arith, e), (good', i'))

  pub resources-Proceeds :
      ((a.admin_secret == "") ≡ false)
      → ((a.ca_secret == "") ≡ false)
      → (fresh : Cluster) (tcp : TenantControlPlane F) (run : Run K) → IsPublished K a tcp
      → Healthy run
      → Proceeds K (resources_step K remote fresh tcp) run (λ _ run'. Healthy run')
  unfolding resources_step
  resources-Proceeds admin ca fresh tcp run p (good, i) =
      let (w', e, good') =
        create_required_resources-ok K a v admin ca run.kcp tcp fresh run.world i p good in
      Proceeds-tracked K Good v.ticks kubeadm_resources_created back_or_fail
        (on_world K (λ kcp. create_required_resources K remote fresh kcp tcp)) {run = run}
        (λ _ kcp. IsFit K a kcp) (tt, record run { world = w' }, ground (arith, e), (good', i))
