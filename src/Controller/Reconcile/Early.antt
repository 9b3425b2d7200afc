-- ===== src/Controller/Reconcile/Early.antt =====
-- What the steps of `Reconcile` return early.
use cluster_api_control_plan.Controller.Reconcile.Main.{settle_steps}
use cluster_api_control_plan.Controller.Reconcile.Chain.{
  ◌>>=◌, ◌>>◌, Outcome, finished, failed, return, Exec, pure, or_return,
}
use cluster_api_control_plan.Objects.{
  Foreign, TenantControlPlane, Cluster, VersionStatus, is_control_plane_initialized,
}
use cluster_api_control_plan.Base.{
  String, Option, ◌≡◌, Bool, true, false, not, ◌&&◌, some, inl, inr, Bool-cases, Option-cases,
  arith,
}
use cluster_api_control_plan.Controller.Conditions.{
  found_external_cluster_reference, infrastructure_cluster_patched,
  kamaji_control_plane_initialized, track_condition_type,
}
use cluster_api_control_plan.Controller.Reconcile.Steps.{
  tenant_step, address_step, endpoint_step, scale_step, confirm_step, resources_step, ready_step,
  back, initialized_step, mark_initialized, on_kcp, tracked, back_or_fail, on_world, remote_step,
  infrastructure_step, wait_step, initialize_step, is_ready,
}
use cluster_api_control_plan.Errors.{Error, err, is_enqueue_back, Result-cases}
use cluster_api_control_plan.Kube.{Kube}
use cluster_api_control_plan.Controller.Run.{Reconciler, Run, Action}
use cluster_api_control_plan.Controller.ExternalReference.{
  extract_remote_client, skip_infra_cluster_patch,
}
use cluster_api_control_plan.Controller.Finalizer.{handle_finalizer}
use cluster_api_control_plan.Controller.ClusterPatch.Infrastructure.{patch_cluster}
use cluster_api_control_plan.Controller.Reconcile.Inversion.{Flow-cases}

abbrev pub is_finished : Outcome → Bool
is_finished finished = true
is_finished _ = false

-- An outcome that is a success only if G holds.
abbrev pub OnlyIf : Type 0 → Outcome → Type 0
OnlyIf G o = is_finished o ≡ true → G

module _ {F : Foreign} (K : Kube F) where
  -- Whatever a chain returns early has the property.
  abbrev pub Ends : {A : Type 0} → (Outcome → Type 0) → Exec K A → Type 0
  Ends P m = (run run' : Run K) (o : Outcome) → m run ≡ (return o, run') → P o

  Ends-bind :
      {A B : Type 0} (P : Outcome → Type 0) (m : Exec K A) (f : A → Exec K B)
      → Ends P m
      → ((a : A) → Ends P (f a))
      → Ends P (m >>= f)
  Ends-bind P m f i j run run' o h = elim (Flow-cases (m run).0) [
    | inl (a, q) ↦ j a (m run).1 run' o (ground arith)
    | inr (o1, q) ↦ i run run' o (ground arith)
  ]

  Ends-or_return :
      {A : Type 0} (P : Outcome → Type 0) (f : Error → Outcome) (action : Action K A)
      → ((run : Run K) (e : Error) → (action run).0 ≡ err e → P (f e))
      → Ends P (or_return f action)
  Ends-or_return P f action i run run' o h = elim (Result-cases (action run).0) [
    | inl (a, q) ↦ ground arith
    | inr (e, q) ↦ let eq : f e ≡ o = ground arith in rw eq at (i run e q)
  ]

  Ends-tracked :
      {A : Type 0} (P : Outcome → Type 0) (t : String) (f : Error → Outcome) (action : Action K A)
      → ((e : Error) → P (f e))
      → Ends P (tracked K t f action)
  unfolding tracked
  Ends-tracked P t f action i run run' o h =
      Ends-or_return P f (track_condition_type K t run.kcp.meta.generation action) (λ _ e _. i e)
        run run' o h

  OnlyIf-back_or_fail : (G : Type 0) (e : Error) → OnlyIf G (back_or_fail e)
  OnlyIf-back_or_fail G e h = elim (Bool-cases (is_enqueue_back e)) [
    | inl y ↦ ground arith
    | inr n ↦ ground arith
  ]

  pub Ends-remote_step : (G : Type 0) (r : Reconciler K) → Ends (OnlyIf G) (remote_step K r)
  unfolding remote_step
  Ends-remote_step G r run run' o h =
      elim (Option-cases run.kcp.spec.deployment.external_cluster_reference) [
        | inl q ↦ ground arith
        | inr (ref, q) ↦
            Ends-bind (OnlyIf G)
              (tracked K found_external_cluster_reference failed
                (on_world K (extract_remote_client K r)))
              (λ remote. or_return failed (on_kcp K (handle_finalizer K)) >> pure (some remote))
              (Ends-tracked (OnlyIf G) found_external_cluster_reference failed
                (on_world K (extract_remote_client K r)) (λ e f. ground arith))
              (λ remote.
                Ends-bind (OnlyIf G) (or_return failed (on_kcp K (handle_finalizer K)))
                  (λ _. pure (some remote))
                  (Ends-or_return (OnlyIf G) failed (on_kcp K (handle_finalizer K))
                    (λ _ e _ f. ground arith))
                  (λ _ s s' o1 g. ground arith))
              run run' o (ground arith)
      ]

  Ends-wait_step :
      (G : Type 0) (fresh : Cluster) (tcp : TenantControlPlane F)
      → Ends (OnlyIf G) (wait_step K fresh tcp)
  unfolding wait_step
  Ends-wait_step G fresh tcp run run' o h f = elim (Option-cases tcp.status.version_status) [
    | inl q ↦ ground arith
    | inr (v, q) ↦ ground arith
  ]

  Ends-infrastructure_step :
      (G : Type 0) (fresh : Cluster) (r : Reconciler K) (endpoint : String)
      → Ends (OnlyIf G) (infrastructure_step K r fresh endpoint)
  unfolding infrastructure_step
  Ends-infrastructure_step G fresh r endpoint run run' o h f =
      elim (Bool-cases (r.enabled skip_infra_cluster_patch)) [
        | inl y ↦ ground arith
        | inr n ↦
            Ends-tracked (OnlyIf G) infrastructure_cluster_patched failed
              (on_world K (λ kcp. patch_cluster K r fresh kcp endpoint)) (λ e g. ground arith) run
              run' o (ground arith) f
      ]

  Ends-initialize_step : (G : Type 0) (v : VersionStatus) → Ends (OnlyIf G) (initialize_step K v)
  unfolding initialize_step
  Ends-initialize_step G v run run' o h f =
      elim (Bool-cases (is_ready v && not (is_control_plane_initialized run.kcp.status))) [
        | inr n ↦ ground arith
        | inl y ↦
            Ends-tracked (OnlyIf G) kamaji_control_plane_initialized failed (mark_initialized K)
              (λ e g. ground arith) run run' o (ground arith) f
      ]

  Ends-initialized_step : (G : Type 0) → Ends (OnlyIf G) (initialized_step K)
  unfolding initialized_step
  Ends-initialized_step G run run' o h f =
      elim (Bool-cases (is_control_plane_initialized run.kcp.status)) [
        | inl y ↦ ground arith
        | inr n ↦ ground arith
      ]

  Ends-ready_step : (G : Type 0) (v : VersionStatus) → Ends (OnlyIf G) (ready_step K v)
  unfolding ready_step
  Ends-ready_step G v = Ends-or_return (OnlyIf G) back_or_fail _ (λ _ e _. OnlyIf-back_or_fail G e)

  Ends-confirm_step : (G : Type 0) → Ends (OnlyIf G) (confirm_step K)
  unfolding confirm_step
  Ends-confirm_step G run run' o h f = ground arith

  pub Ends-tenant_step :
      (G : Type 0) (remote : Option K.Client) (cluster : Cluster)
      → Ends (OnlyIf G) (tenant_step K remote cluster)
  unfolding tenant_step
  Ends-tenant_step G remote cluster = Ends-tracked (OnlyIf G) _ failed _ (λ e g. ground arith)

  pub Ends-address_step :
      (G : Type 0) (endpoint : String) → Ends (OnlyIf G) (address_step K endpoint)
  unfolding address_step
  Ends-address_step G endpoint = Ends-tracked (OnlyIf G) _ back _ (λ e g. ground arith)

  pub Ends-endpoint_step :
      (G : Type 0) (endpoint : String) → Ends (OnlyIf G) (endpoint_step K endpoint)
  unfolding endpoint_step
  Ends-endpoint_step G endpoint = Ends-tracked (OnlyIf G) _ failed _ (λ e g. ground arith)

  pub Ends-settle_steps :
      (G : Type 0) (r : Reconciler K) (remote : Option K.Client) (fresh : Cluster)
      (tcp : TenantControlPlane F)
      → Ends (OnlyIf G) (settle_steps K r remote fresh tcp)
  unfolding settle_steps scale_step resources_step
  Ends-settle_steps G r remote fresh tcp =
      let P : Outcome → Type 0 = OnlyIf G in
      Ends-bind P _ _ (Ends-infrastructure_step G fresh r tcp.status.control_plane_endpoint) (λ _.
        Ends-bind P _ _ (Ends-wait_step G fresh tcp) (λ v.
          Ends-bind P _ _ (Ends-initialize_step G v) (λ _.
            Ends-bind P _ _ (Ends-initialized_step G) (λ _.
              Ends-bind P _ _ (Ends-tracked P _ failed _ (λ e g. ground arith)) (λ _.
                Ends-bind P _ _ (Ends-confirm_step G) (λ _.
                  Ends-bind P _ _ (Ends-tracked P _ back_or_fail _ (OnlyIf-back_or_fail G))
                    (λ _. Ends-ready_step G v)))))))
