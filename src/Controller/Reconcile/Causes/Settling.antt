-- ===== src/Controller/Reconcile/Causes/Settling.antt =====
-- Why each of the steps after the Cluster has been read again returns early.
use cluster_api_control_plan.Base.{
  Option, ◌==◌, ◌≡◌, not, ◌&&◌, inl, inr, Bool-cases, Option-cases, arith,
}
use cluster_api_control_plan.Objects.{
  Foreign, TenantControlPlane, Cluster, VersionStatus, is_control_plane_initialized,
}
use cluster_api_control_plan.Errors.{is_enqueue_back, Result-cases}
use cluster_api_control_plan.Kube.{Kube}
use cluster_api_control_plan.Kube.Laws.{IsLawfulConditions}
use cluster_api_control_plan.Controller.Run.{Reconciler, Run, update_kamaji_control_plane_status}
use cluster_api_control_plan.Controller.Conditions.{
  infrastructure_cluster_patched, kamaji_control_plane_initialized, kubeadm_resources_created,
}
use cluster_api_control_plan.Controller.ExternalReference.{skip_infra_cluster_patch}
use cluster_api_control_plan.Controller.ClusterPatch.Infrastructure.{patch_cluster}
use cluster_api_control_plan.Controller.Resources.{create_required_resources}
use cluster_api_control_plan.Controller.Reconcile.Chain.{Exec, requeue_after, failed}
use cluster_api_control_plan.Controller.Reconcile.Steps.{
  deref, back_or_fail, is_ready, with_ready, scaled, mark_initialized, on_world, report_ready,
  infrastructure_step, wait_step, initialize_step, initialized_step, scale_step, confirm_step,
  resources_step, ready_step,
}
use cluster_api_control_plan.Controller.Reconcile.Main.{settle_steps}
use cluster_api_control_plan.Controller.Reconcile.Readiness.{ready_step-report}
use cluster_api_control_plan.Controller.Reconcile.Reached.{
  Point, found, patched, waited, marked, initialized, counted, confirmed, provided, Reached,
  to_patched, to_waited, to_marked, to_initialized, to_counted, to_confirmed, to_provided,
}
use cluster_api_control_plan.Controller.Reconcile.Causes.{
  Cause, Failure, not_patched, not_marked, not_counted, awaited, not_provided, not_reported, told,
  no_host, not_provisioned, no_version, not_initialized,
}
use cluster_api_control_plan.Controller.Reconcile.Causes.Publication.{
  HasCauseAt, HasCauseAt-bind, HasCause, tracked-HasCause,
}

module _ {F : Foreign} (K : Kube F) (r : Reconciler K) (cluster : Cluster) (begin : Run K) where
  abbrev At : Point K → Run K → Type 0
  At = Reached K r cluster begin

  abbrev Explained : {A : Type 0} → Exec K A → Run K → Type 0
  Explained = HasCause K r cluster begin

  module _ (remote : Option K.Client) (tcp : TenantControlPlane F) (fresh : Cluster) where
    wait-HasCause :
        (run : Run K) → At (patched remote tcp fresh) run → Explained (wait_step K fresh tcp) run
    unfolding wait_step
    wait-HasCause run p run' o h = elim (Bool-cases (fresh.control_plane_endpoint.host == "")) [
      | inl y ↦
          let c : Cause K r cluster begin (requeue_after 1) run = no_host p y in ground (arith, c)
      | inr n ↦ elim (Bool-cases (deref fresh.infrastructure_provisioned)) [
        | inr m ↦
            let c : Cause K r cluster begin (requeue_after 1) run = not_provisioned p m in
            ground (arith, c)
        | inl m ↦ elim (Option-cases tcp.status.version_status) [
          | inl q ↦
              let c : Cause K r cluster begin (requeue_after 1) run = no_version p q in
              ground (arith, c)
          | inr (x, q) ↦ ground arith
        ]
      ]
    ]

    initialized-HasCause :
        (v : VersionStatus) (run : Run K)
        → At (marked remote tcp fresh v) run
        → Explained (initialized_step K) run
    unfolding initialized_step
    initialized-HasCause v run p run' o h =
        elim (Bool-cases (is_control_plane_initialized run.kcp.status)) [
          | inl y ↦ ground arith
          | inr n ↦
              let c : Cause K r cluster begin (requeue_after 1) run = not_initialized p n in
              ground (arith, c)
        ]

    confirm-HasCause :
        (v : VersionStatus)
        → HasCauseAt K r cluster begin (counted remote tcp fresh v) (confirm_step K)
    unfolding confirm_step
    confirm-HasCause v run p run' o h = ground arith

    module _
        (L : IsLawfulConditions K.find_status_condition K.set_status_condition
          K.remove_status_condition) where
      infrastructure-HasCause :
          (run : Run K)
          → At (found remote tcp fresh) run
          → Explained (infrastructure_step K r fresh tcp.status.control_plane_endpoint) run
      unfolding infrastructure_step
      infrastructure-HasCause run p run' o h =
          elim (Bool-cases (r.enabled skip_infra_cluster_patch)) [
            | inl y ↦ ground arith
            | inr n ↦
                tracked-HasCause K r cluster begin L infrastructure_cluster_patched failed
                  (on_world K
                    (λ kcp. patch_cluster K r fresh kcp tcp.status.control_plane_endpoint))
                  run (λ e x. not_patched p n x) run' o (ground arith)
          ]

      initialize-HasCause :
          (v : VersionStatus) (run : Run K)
          → At (waited remote tcp fresh v) run
          → Explained (initialize_step K v) run
      unfolding initialize_step
      initialize-HasCause v run p run' o h =
          elim (Bool-cases (is_ready v && not (is_control_plane_initialized run.kcp.status))) [
            | inr n ↦ ground arith
            | inl y ↦
                tracked-HasCause K r cluster begin L kamaji_control_plane_initialized failed
                  (mark_initialized K) run (λ e x. not_marked p y x) run' o (ground arith)
          ]

      scale-HasCause :
          (v : VersionStatus) (run : Run K)
          → At (initialized remote tcp fresh v) run
          → Explained (scale_step K tcp) run
      unfolding scale_step
      scale-HasCause v run p =
          tracked-HasCause K r cluster begin L kamaji_control_plane_initialized failed
            (update_kamaji_control_plane_status K (scaled K tcp.status)) run
            (λ e x. not_counted p x)

      resources-HasCause :
          (v : VersionStatus) (run : Run K)
          → At (confirmed remote tcp fresh v) run
          → Explained (resources_step K remote fresh tcp) run
      unfolding resources_step
      resources-HasCause v run p =
          tracked-HasCause K r cluster begin L kubeadm_resources_created back_or_fail
            (on_world K (λ kcp. create_required_resources K remote fresh kcp tcp)) run
            (λ e x. elim (Bool-cases (is_enqueue_back e)) [
              | inl y ↦
                  let same : requeue_after 1 ≡ back_or_fail e = ground arith in
                  let c : Failure K r cluster begin run kubeadm_resources_created e
                      (requeue_after 1) =
                    awaited p x y in
                  rw same at c
              | inr n ↦
                  let same : failed e ≡ back_or_fail e = ground arith in
                  let c : Failure K r cluster begin run kubeadm_resources_created e (failed e) =
                    not_provided p x n in
                  rw same at c
            ])

      ready-HasCause :
          (v : VersionStatus) (run : Run K)
          → At (provided remote tcp fresh v) run
          → Explained (ready_step K v) run
      unfolding report_ready
      ready-HasCause v run p run' o h =
          let (flow, message) = ready_step-report K L v run in
          elim (Result-cases (update_kamaji_control_plane_status K (with_ready K v) run).0) [
            | inl (u, q) ↦ ground (arith, flow)
            | inr (e, q) ↦
                let same : failed e ≡ o = ground (arith, flow) in
                let c : Cause K r cluster begin (failed e) run' =
                  told (not_reported p q) (ground (arith, message)) in
                rw same at c
          ]

      pub settle-HasCause :
          HasCauseAt K r cluster begin (found remote tcp fresh) (settle_steps K r remote fresh tcp)
      unfolding settle_steps
      settle-HasCause =
          HasCauseAt-bind K r cluster begin _ _ infrastructure-HasCause (λ _ _ _. to_patched)
            (λ _.
              HasCauseAt-bind K r cluster begin _ _ wait-HasCause (λ _ _ _. to_waited)
                (λ v.
                  HasCauseAt-bind K r cluster begin _ _ (initialize-HasCause v) (λ _ _ _. to_marked)
                    (λ _.
                      HasCauseAt-bind K r cluster begin _ _ (initialized-HasCause v)
                        (λ _ _ _. to_initialized)
                        (λ _.
                          HasCauseAt-bind K r cluster begin _ _ (scale-HasCause v)
                            (λ _ _ _. to_counted)
                            (λ _.
                              HasCauseAt-bind K r cluster begin _ _ (confirm-HasCause v)
                                (λ _ _ _. to_confirmed)
                                (λ _.
                                  HasCauseAt-bind K r cluster begin _ _ (resources-HasCause v)
                                    (λ _ _ _. to_provided) (λ _. ready-HasCause v)))))))
