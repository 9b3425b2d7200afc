-- ===== src/Controller/Reconcile/Progress/Pass.antt =====
-- A pass that succeeds.
use cluster_api_control_plan.Base.{◌≡◌, ◌∙◌, sym, ap, String, List, ◌==◌, false, none, Option}
use cluster_api_control_plan.Base.Int.{ℤ}
use cluster_api_control_plan.Errors.{ok}
use cluster_api_control_plan.Objects.{
  Foreign, KamajiControlPlane, TenantControlPlane, Cluster, OwnerReference, VersionStatus,
  version_ready, key_of,
}
use cluster_api_control_plan.Kube.{Kube}
use cluster_api_control_plan.Controller.Run.{Run, Reconciler}
use cluster_api_control_plan.Controller.ClusterPatch.Endpoint.{control_plane_endpoint}
use cluster_api_control_plan.Controller.Reconcile.Chain.{Outcome, finished, next}
use cluster_api_control_plan.Controller.Reconcile.Main.{
  reconcile, reconcile_object, reconcile_cluster, reconcile_normal,
}
use cluster_api_control_plan.Controller.Reconcile.Success.{start}
use cluster_api_control_plan.Controller.Reconcile.Progress.Updates.{status-Succeeds}
use cluster_api_control_plan.Controller.Run.{update_kamaji_control_plane_status}
use cluster_api_control_plan.Objects.{KamajiControlPlaneStatus}
use cluster_api_control_plan.Base.{arith, none, ◌∷◌}
use cluster_api_control_plan.Base.{◌∙◌, sym, ap}
use cluster_api_control_plan.Errors.{Result}
use cluster_api_control_plan.Controller.Reconcile.Chain.{Flow}
use cluster_api_control_plan.Controller.Reconcile.Main.{send_conditions}
use mathlib.Core.Path.{subst⁻¹}
use cluster_api_control_plan.Controller.Reconcile.Chain.{Exec, ◌>>◌, ◌>>=◌}
use cluster_api_control_plan.Controller.Reconcile.Main.{settle_steps, steps, report_steps}
use cluster_api_control_plan.Controller.Reconcile.Steps.{
  remote_step, tenant_step, address_step, endpoint_step, cluster_step, infrastructure_step,
  wait_step, initialize_step, initialized_step, scale_step, confirm_step, resources_step,
  ready_step,
}
use cluster_api_control_plan.Controller.Reconcile.Progress.{
  Fixed, IsFit, IsServed, IsProvisioned, IsPublished, IsAttainable, IsReached,
}
use cluster_api_control_plan.Controller.Reconcile.Progress.Chain.{Proceeds, Proceeds-bind}
use cluster_api_control_plan.Controller.Reconcile.Progress.Updates.{control_plane_endpoint-network}
use cluster_api_control_plan.Controller.Reconcile.Progress.Steps.{
  Healthy, tenant-Proceeds, address-Proceeds, endpoint-Proceeds, cluster-Proceeds,
  infrastructure-Proceeds, wait-Proceeds, initialize-Proceeds, initialized-Proceeds, scale-Proceeds,
  confirm-Proceeds, resources-Proceeds,
}
use cluster_api_control_plan.Controller.Reconcile.Progress.Remote.{remote-Proceeds}
use cluster_api_control_plan.Controller.Reconcile.Progress.Report.{IsReported, ready-Proceeds}

module _ {F : Foreign} (K : Kube F) (a : Fixed F) {Good : K.World → Type 0}
    {IsFree : List OwnerReference → Type 0} {cluster : Cluster} {remote : Option K.Client}
    (v : IsServed K a Good remote IsFree cluster) where
  module _ {IsObject : K.Unstructured → Type 0} (r : Reconciler K)
      (t : IsAttainable K a Good IsObject r) where
    -- The second half of the steps, for an object whose endpoint can be chosen.
    settle-Proceeds :
        (fresh : Cluster) (tcp : TenantControlPlane F) (run : Run K) {chosen : String × ℤ}
        → control_plane_endpoint run.kcp tcp.status.control_plane_endpoint ≡ ok chosen
        → IsProvisioned K a fresh
        → IsPublished K a tcp
        → Healthy K a v run
        → Proceeds K
            (settle_steps K r remote fresh tcp)
            run
            (λ _ run'. IsReported K a v run' × Healthy K a v run')
    unfolding settle_steps
    settle-Proceeds fresh tcp run parsed p q h =
        Proceeds-bind K (infrastructure_step K r fresh tcp.status.control_plane_endpoint) _
          (infrastructure-Proceeds K a v r fresh tcp.status.control_plane_endpoint run
            t.is_patchable parsed p h)
          (λ _ run1 h1.
            Proceeds-bind K (wait_step K fresh tcp) _ (wait-Proceeds K a v fresh tcp run1 p q h1)
              (λ x run2 (same, h2).
                subst⁻¹
                  (λ (x : VersionStatus).
                    Proceeds K
                      (initialize_step K x
                        >> (initialized_step K
                            >> (scale_step K tcp
                                >> (confirm_step K
                                    >> (resources_step K remote fresh tcp >> ready_step K x)))))
                      run2 (λ _ run'. IsReported K a v run' × Healthy K a v run'))
                  same
                  (Proceeds-bind K (initialize_step K version_ready) _
                    (initialize-Proceeds K a v run2 h2)
                    (λ _ run3 (y, h3).
                      Proceeds-bind K (initialized_step K) _ (initialized-Proceeds K a v run3 y h3)
                        (λ _ run4 h4.
                          Proceeds-bind K (scale_step K tcp) _ (scale-Proceeds K a v tcp run4 h4)
                            (λ _ run5 h5.
                              Proceeds-bind K (confirm_step K) _ (confirm-Proceeds K a v run5 h5)
                                (λ _ run6 h6.
                                  Proceeds-bind K (resources_step K remote fresh tcp) _
                                    (resources-Proceeds K a v t.names_admin t.names_ca fresh tcp
                                      run6 q h6)
                                    (λ _ run7 h7.
                                      ready-Proceeds K a v t.has_conditions run7 h7))))))))

    pub steps-Proceeds :
        IsReached K a Good r remote
        → (run : Run K) {chosen : String × ℤ}
        → control_plane_endpoint run.kcp a.endpoint ≡ ok chosen
        → Healthy K a v run
        → Proceeds K (steps K r cluster) run (λ _ run'. IsReported K a v run' × Healthy K a v run')
    unfolding steps report_steps
    steps-Proceeds reached run {chosen} parsed h =
        let parses : (kcp : KamajiControlPlane F) (endpoint : String)
            → IsFit K a kcp
            → endpoint ≡ a.endpoint
            → control_plane_endpoint kcp endpoint ≡ ok chosen =
          λ kcp endpoint i same.
            ap (control_plane_endpoint kcp) same
            ∙ control_plane_endpoint-network K a kcp run.kcp a.endpoint
                (i.has_network ∙ sym h.1.has_network)
            ∙ parsed in
        let finish : Option K.Client → TenantControlPlane F → Exec K (Unit {0}) = λ found tcp.
          address_step K tcp.status.control_plane_endpoint
          >> (endpoint_step K tcp.status.control_plane_endpoint
              >> (cluster_step K (key_of cluster.meta) >>= λ fresh.
                  settle_steps K r found fresh tcp)) in
        Proceeds-bind K (remote_step K r) _ (remote-Proceeds K a v r remote run reached h)
          (λ found run1 (found_is, h1).
            subst⁻¹
              (λ found.
                Proceeds K (tenant_step K found cluster >>= finish found) run1
                  (λ _ run'. IsReported K a v run' × Healthy K a v run'))
              found_is
              (Proceeds-bind K (tenant_step K remote cluster) _
                (tenant-Proceeds K a v r reached t.is_checked run1 h1)
                (λ tcp run2 (good2, (q, i2)).
                  let endpoint = tcp.status.control_plane_endpoint in
                  let address : (endpoint == "") ≡ false =
                    ap (λ e. e == "") q.has_endpoint ∙ t.has_address in
                  Proceeds-bind K (address_step K endpoint) _
                    (address-Proceeds K a v endpoint run2 address (good2, i2))
                    (λ _ run3 h3.
                      Proceeds-bind K (endpoint_step K endpoint) _
                        (endpoint-Proceeds K a v endpoint run3
                          (parses run3.kcp endpoint h3.1 q.has_endpoint) h3)
                        (λ _ run4 h4.
                          Proceeds-bind K (cluster_step K (key_of cluster.meta)) _
                            (cluster-Proceeds K a v run4 h4)
                            (λ fresh run5 (p, h5).
                              settle-Proceeds fresh tcp run5
                                (parses run5.kcp endpoint h5.1 q.has_endpoint) p q h5))))))

    -- What a successful pass leaves: the steps got to their end with an object that is ready and is
    -- shown as available, and the server has accepted all the conditions.
    pub record IsAccomplished (kcp : KamajiControlPlane F) (w w' : K.World) : Type 0 where
      pub ended : Run K
      pub to_end : steps K r cluster (start K kcp w) ≡ (next tt, ended)
      pub is_reported : IsReported K a v ended
      pub answer : Run K
      pub is_sent :
          update_kamaji_control_plane_status K
            (λ s. record s { conditions = ended.conditions })
            ended
          ≡ (ok tt, answer)
      pub has_conditions : answer.kcp.status.conditions ≡ ended.conditions
      pub is_last : answer.world ≡ w'

    reconcile_normal-IsAccomplished :
        IsReached K a Good r remote
        → (kcp : KamajiControlPlane F) (w : K.World) {chosen : String × ℤ}
        → control_plane_endpoint kcp a.endpoint ≡ ok chosen
        → Good w
        → IsFit K a kcp
        → ((reconcile_normal K r cluster kcp w).0 ≡ finished)
          × IsAccomplished kcp w (reconcile_normal K r cluster kcp w).1
    unfolding reconcile_normal
    reconcile_normal-IsAccomplished reached kcp w parsed good i =
        let (x, ended, e, (reported, (good1, i1))) =
          steps-Proceeds reached (start K kcp w) parsed (good, i) in
        let (y, answer, e', (good2, (i2, (old, q)))) =
          status-Succeeds K a v (λ s. record s { conditions = ended.conditions }) ended good1 i1 in
        (
          ground (arith, e),
          record {
            ended = ended;
            to_end = e;
            is_reported = reported;
            answer = answer;
            is_sent = e';
            has_conditions = ap (λ (s : KamajiControlPlaneStatus). s.conditions) q;
            is_last =
                ap (λ (out : Result (Unit {0}) × Run K). out.1.world) (sym e')
                ∙ ap (λ (out : Flow (Unit {0}) × Run K). send_conditions K out.1) (sym e);
          },
        )

    -- One pass is enough. If the servers answer as described, for an object whose first owner is the
    -- Cluster, which is neither paused nor being deleted, whose TenantControlPlane is in the same
    -- cluster, or in another one that the store has a manager for, and is published by Kamaji, and
    -- for which an endpoint can be chosen, then `Reconcile` reports success with nothing to be
    -- enqueued again, the steps have got to their end, the object is ready and shown as available,
    -- and the server has accepted the conditions.
    pub reconcile-IsAccomplished :
        IsReached K a Good r remote
        → (w : K.World) {kcp : KamajiControlPlane F} {w1 w2 : K.World} {owner : OwnerReference}
          {owners : List OwnerReference} {chosen : String × ℤ}
        → K.get_kcp a.key w ≡ (ok kcp, w1)
        → IsFit K a kcp
        → kcp.meta.owner_references ≡ owner ∷ owners
        → K.get_cluster (record { namespace = kcp.meta.namespace; name = owner.name }) w1
          ≡ (ok cluster, w2)
        → Good w2
        → K.is_paused cluster kcp ≡ false
        → kcp.meta.deletion_timestamp ≡ none
        → control_plane_endpoint kcp a.endpoint ≡ ok chosen
        → ((reconcile K r a.key w).0 ≡ finished) × IsAccomplished kcp w2 (reconcile K r a.key w).1
    unfolding reconcile reconcile_object reconcile_cluster
    reconcile-IsAccomplished reached w {kcp} {w1} {w2} read i owned found good running kept parsed =
        let same : reconcile K r a.key w ≡ reconcile_normal K r cluster kcp w2 =
          ground (arith, read, owned, found, running, kept) in
        subst⁻¹ (λ (out : Outcome × K.World). (out.0 ≡ finished) × IsAccomplished kcp w2 out.1) same
          (reconcile_normal-IsAccomplished reached kcp w2 parsed good i)
