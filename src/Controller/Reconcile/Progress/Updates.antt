-- ===== src/Controller/Reconcile/Progress/Updates.antt =====
-- Updates of the object that succeed.
use cluster_api_control_plan.Base.{◌≡◌, sym, arith, String, List, Option}
use mathlib.Core.Path.{subst}
use cluster_api_control_plan.Base.Int.{ℤ, int32}
use cluster_api_control_plan.Errors.{ok}
use cluster_api_control_plan.Objects.{
  Foreign, KamajiControlPlane, KamajiControlPlaneStatus, Cluster, OwnerReference, ApiEndpoint,
  key_of,
}
use cluster_api_control_plan.Kube.{Kube}
use cluster_api_control_plan.Controller.Run.{
  Run, status_attempt, update_kamaji_control_plane_status,
}
use cluster_api_control_plan.Controller.Resources.{kubeconfig_key}
use cluster_api_control_plan.Controller.Tenant.{with_core_dns_default}
use cluster_api_control_plan.Controller.ClusterPatch.Endpoint.{
  control_plane_endpoint, endpoint_attempt, patch_control_plane_endpoint,
}
use cluster_api_control_plan.Controller.Reconcile.Progress.{Fixed, IsFit, IsServed, Answers}
use cluster_api_control_plan.Controller.Reconcile.Progress.Chain.{Succeeds, Retries-ok}

module _ {F : Foreign} (K : Kube F) (a : Fixed F) where
  -- What the program changes itself.
  pub status-IsFit :
      {kcp : KamajiControlPlane F} (s : KamajiControlPlaneStatus)
      → IsFit K a kcp
      → IsFit K a (record kcp { status = s })
  unfolding kubeconfig_key
  status-IsFit s i = record {
    has_key = i.has_key;
    has_network = i.has_network;
    has_kubeconfig = i.has_kubeconfig;
    has_reference = i.has_reference;
  }

  pub endpoint-IsFit :
      {kcp : KamajiControlPlane F} (e : ApiEndpoint)
      → IsFit K a kcp
      → IsFit K a (record kcp { spec = record kcp.spec { control_plane_endpoint = e } })
  unfolding kubeconfig_key
  endpoint-IsFit e i = record {
    has_key = i.has_key;
    has_network = i.has_network;
    has_kubeconfig = i.has_kubeconfig;
    has_reference = i.has_reference;
  }

  pub default-IsFit :
      (kcp : KamajiControlPlane F) → IsFit K a kcp → IsFit K a (with_core_dns_default kcp)
  unfolding kubeconfig_key with_core_dns_default
  default-IsFit kcp i = record {
    has_key = ground (arith, i.has_key);
    has_network = ground (arith, i.has_network);
    has_kubeconfig = ground (arith, i.has_kubeconfig);
    has_reference = ground (arith, i.has_reference);
  }

  -- The endpoint that is chosen goes by the network alone.
  pub control_plane_endpoint-network :
      (kcp kcp' : KamajiControlPlane F) (status_endpoint : String)
      → kcp.spec.network ≡ kcp'.spec.network
      → control_plane_endpoint kcp status_endpoint ≡ control_plane_endpoint kcp' status_endpoint
  unfolding control_plane_endpoint
  control_plane_endpoint-network kcp kcp' status_endpoint e = cc

  module _ {Good : K.World → Type 0} {IsFree : List OwnerReference → Type 0} {cluster : Cluster}
      {remote : Option K.Client} (v : IsServed K a Good remote IsFree cluster) where
    abbrev pub IsHealthy : KamajiControlPlane F × K.World → Type 0
    IsHealthy (kcp, w) = Good w × IsFit K a kcp

    pub read-own :
        (kcp : KamajiControlPlane F) (w : K.World)
        → Good w
        → IsFit K a kcp
        → Answers K a Good (K.get_kcp (key_of kcp.meta) w) (IsFit K a)
    read-own kcp w good i =
        subst (λ key. Answers K a Good (K.get_kcp key w) (IsFit K a)) (sym i.has_key)
          (v.reads w good)

    status_attempt-ok :
        (modifier : KamajiControlPlaneStatus → KamajiControlPlaneStatus)
        (s : KamajiControlPlane F × K.World)
        → IsHealthy s
        → (s' : KamajiControlPlane F × K.World) × (status_attempt K modifier s ≡ (ok tt, s'))
          × (IsHealthy s' × ((old : KamajiControlPlaneStatus) × (s'.0.status ≡ modifier old)))
    unfolding status_attempt
    status_attempt-ok modifier (kcp, w) (good, i) =
        let (fresh, w1, e1, i1, good1) = read-own kcp w good i in
        let (answer, w2, e2, (i2, same), good2) =
          v.updates_status w1 (record fresh { status = modifier fresh.status }) good1
            (status-IsFit (modifier fresh.status) i1) in
        ((answer, w2), ground (arith, e1, e2), ((good2, i2), (fresh.status, same)))

    -- `updateKamajiControlPlaneStatus` succeeds; the answer has the status that was sent.
    pub status-Succeeds :
        (modifier : KamajiControlPlaneStatus → KamajiControlPlaneStatus) (run : Run K)
        → Good run.world
        → IsFit K a run.kcp
        → Succeeds K (update_kamaji_control_plane_status K modifier) run (λ _ run'.
          Good run'.world
          × (IsFit K a run'.kcp
              × ((old : KamajiControlPlaneStatus) × (run'.kcp.status ≡ modifier old))))
    unfolding update_kamaji_control_plane_status
    status-Succeeds modifier run good i =
        let ((kcp, w), e, (healthy, q)) =
          Retries-ok (status_attempt-ok modifier)
            (v.retries (KamajiControlPlane F × K.World) (status_attempt K modifier)
              (run.kcp, run.world))
            (good, i) in
        (tt, record run { kcp = kcp; world = w }, ground (arith, e), (healthy.0, (healthy.1, q)))

    endpoint_attempt-ok :
        (endpoint : String) (port : ℤ) (s : KamajiControlPlane F × K.World)
        → IsHealthy s
        → (s' : KamajiControlPlane F × K.World) × (endpoint_attempt K endpoint port s ≡ (ok tt, s'))
          × IsHealthy s'
    unfolding endpoint_attempt
    endpoint_attempt-ok endpoint port (kcp, w) (good, i) =
        let (fresh, w1, e1, i1, good1) = read-own kcp w good i in
        let (answer, w2, e2, i2, good2) =
          v.updates w1 _ good1
            (endpoint-IsFit (record { host = endpoint; port = int32 port }) i1) in
        ((answer, w2), ground (arith, e1, e2), (good2, i2))

    pub patch_control_plane_endpoint-Succeeds :
        (endpoint : String) (run : Run K) {chosen : String × ℤ}
        → Good run.world
        → IsFit K a run.kcp
        → control_plane_endpoint run.kcp endpoint ≡ ok chosen
        → Succeeds K
            (patch_control_plane_endpoint K endpoint)
            run
            (λ _ run'. Good run'.world × IsFit K a run'.kcp)
    unfolding patch_control_plane_endpoint
    patch_control_plane_endpoint-Succeeds endpoint run {chosen} good i parsed =
        let ((kcp, w), e, healthy) =
          Retries-ok (endpoint_attempt-ok chosen.0 chosen.1)
            (v.retries (KamajiControlPlane F × K.World) (endpoint_attempt K chosen.0 chosen.1)
              (run.kcp, run.world))
            (good, i) in
        (tt, record run { kcp = kcp; world = w }, ground (arith, e, parsed), healthy)
