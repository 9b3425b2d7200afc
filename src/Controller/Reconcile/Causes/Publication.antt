-- ===== src/Controller/Reconcile/Causes/Publication.antt =====
-- Why each of the steps up to the one that reads the Cluster again returns early.
use cluster_api_control_plan.Base.{
  String, Option, some, ◌==◌, ◌≡◌, inl, inr, Bool-cases, Option-cases, arith, eq_refl,
}
use cluster_api_control_plan.Objects.{Foreign, TenantControlPlane, Cluster, key_of}
use cluster_api_control_plan.Errors.{
  Error, err, is_not_found, sentinel, err_unprocessed_control_plane_endpoint, Result-cases,
}
use cluster_api_control_plan.Kube.{Kube}
use cluster_api_control_plan.Kube.Laws.{IsLawfulConditions}
use cluster_api_control_plan.Controller.Run.{Reconciler, Run, Action}
use cluster_api_control_plan.Controller.Conditions.{
  found_external_cluster_reference, tenant_control_plane_created,
  tenant_control_plane_address_ready, control_plane_endpoint_patched,
}
use cluster_api_control_plan.Controller.Conditions.Laws.{find-track, result-track}
use cluster_api_control_plan.Controller.ExternalReference.{extract_remote_client}
use cluster_api_control_plan.Controller.Finalizer.{handle_finalizer}
use cluster_api_control_plan.Controller.Tenant.{create_or_update_tenant_control_plane}
use cluster_api_control_plan.Controller.ClusterPatch.Endpoint.{patch_control_plane_endpoint}
use cluster_api_control_plan.Controller.Reconcile.Chain.{
  ◌>>=◌, ◌>>◌, Exec, Outcome, finished, requeue_after, failed, next, return, pure, or_return,
}
use cluster_api_control_plan.Controller.Reconcile.Steps.{
  back, on_world, on_kcp, tracked, check_address, remote_step, tenant_step, address_step,
  endpoint_step, cluster_step,
}
use cluster_api_control_plan.Controller.Reconcile.Inversion.{Flow-cases}
use cluster_api_control_plan.Controller.Reconcile.Reached.{
  Point, begun, connected, created, addressed, published, Reached,
}
use cluster_api_control_plan.Controller.Reconcile.Causes.{
  Cause, Failure, unconnected, not_created, no_address, not_published, told, unfinalized, gone,
  unread,
}

module _ {F : Foreign} (K : Kube F) (r : Reconciler K) (cluster : Cluster) (begin : Run K) where
  -- From these variables, an early return of a chain has a cause.
  abbrev pub HasCause : {A : Type 0} → Exec K A → Run K → Type 0
  HasCause m run =
      (run' : Run K) (o : Outcome) → m run ≡ (return o, run') → Cause K r cluster begin o run'

  pub HasCause-bind :
      {A B : Type 0} (m : Exec K A) (f : A → Exec K B) (run : Run K)
      → HasCause m run
      → ((a : A) (run1 : Run K) → m run ≡ (next a, run1) → HasCause (f a) run1)
      → HasCause (m >>= f) run
  HasCause-bind m f run i j run' o h = elim (Flow-cases (m run).0) [
    | inl (a, q) ↦ j a (m run).1 (ground arith) run' o (ground arith)
    | inr (o1, q) ↦ i run' o (ground arith)
  ]

  -- From every run that has got to a point, an early return of a chain has a cause.
  abbrev pub HasCauseAt : {A : Type 0} → Point K → Exec K A → Type 0
  HasCauseAt at m = (run : Run K) → Reached K r cluster begin at run → HasCause m run

  pub HasCauseAt-bind :
      {A B : Type 0} {here : Point K} {there : A → Point K} (m : Exec K A) (f : A → Exec K B)
      → HasCauseAt here m
      → ((a : A) (run run1 : Run K)
          → Reached K r cluster begin here run
          → m run ≡ (next a, run1)
          → Reached K r cluster begin (there a) run1)
      → ((a : A) → HasCauseAt (there a) (f a))
      → HasCauseAt here (m >>= f)
  HasCauseAt-bind m f i to j run p =
      HasCause-bind m f run (i run p) (λ a run1 e. j a run1 (to a run run1 p e))

  module _
      (L : IsLawfulConditions K.find_status_condition K.set_status_condition
        K.remove_status_condition) where
    -- An error of a tracked call stands in the condition of its type.
    pub tracked-HasCause :
        {A : Type 0} (t : String) (f : Error → Outcome) (action : Action K A) (run : Run K)
        → ((e : Error) → (action run).0 ≡ err e → Failure K r cluster begin run t e (f e))
        → HasCause (tracked K t f action) run
    unfolding tracked
    tracked-HasCause t f action run failure run' o h =
        let g = run.kcp.meta.generation in
        elim (Result-cases (action run).0) [
          | inl (a, q) ↦ ground (arith, result-track K L t g action run)
          | inr (e, q) ↦
              let same : f e ≡ o = ground (arith, result-track K L t g action run) in
              let c : Cause K r cluster begin (f e) run' =
                told (failure e q) (ground (arith, find-track K L t g action run t, eq_refl t)) in
              rw same at c
        ]

    finalizer-HasCause :
        (remote : K.Client) (run run1 : Run K)
        → Reached K r cluster begin begun run
        → tracked K found_external_cluster_reference failed
            (on_world K (extract_remote_client K r))
            run
          ≡ (next remote, run1)
        → HasCause (or_return failed (on_kcp K (handle_finalizer K)) >> pure (some remote)) run1
    finalizer-HasCause remote run run1 p x run' o h =
        elim (Result-cases (handle_finalizer K run1.kcp run1.world).0) [
          | inl (u, q) ↦ ground arith
          | inr (e, q) ↦
              let same : failed e ≡ o = ground arith in
              let c : Cause K r cluster begin (failed e) run' =
                unfinalized remote p x (ground arith) in
              rw same at c
        ]

    pub remote-HasCause :
        (run : Run K) → Reached K r cluster begin begun run → HasCause (remote_step K r) run
    unfolding remote_step
    remote-HasCause run p run' o h =
        elim (Option-cases run.kcp.spec.deployment.external_cluster_reference) [
          | inl q ↦ ground arith
          | inr (ref, q) ↦
              HasCause-bind
                (tracked K found_external_cluster_reference failed
                  (on_world K (extract_remote_client K r)))
                (λ remote. or_return failed (on_kcp K (handle_finalizer K)) >> pure (some remote))
                run
                (tracked-HasCause found_external_cluster_reference failed
                  (on_world K (extract_remote_client K r)) run (λ e x. unconnected ref p q x))
                (λ remote run1 x. finalizer-HasCause remote run run1 p x) run' o (ground arith)
        ]

    pub tenant-HasCause :
        (remote : Option K.Client) (run : Run K)
        → Reached K r cluster begin (connected remote) run
        → HasCause (tenant_step K remote cluster) run
    unfolding tenant_step
    tenant-HasCause remote run p =
        tracked-HasCause tenant_control_plane_created failed
          (on_kcp K (create_or_update_tenant_control_plane K remote cluster)) run
          (λ e x. not_created p x)

    pub address-HasCause :
        (remote : Option K.Client) (tcp : TenantControlPlane F) (run : Run K)
        → Reached K r cluster begin (created remote tcp) run
        → HasCause (address_step K tcp.status.control_plane_endpoint) run
    unfolding address_step
    address-HasCause remote tcp run p =
        tracked-HasCause tenant_control_plane_address_ready back
          (check_address K tcp.status.control_plane_endpoint) run
          (λ e x. elim (Bool-cases (tcp.status.control_plane_endpoint == "")) [
            | inr n ↦ ground arith
            | inl y ↦
                let same : sentinel err_unprocessed_control_plane_endpoint ≡ e = ground arith in
                let c : Failure K r cluster begin run tenant_control_plane_address_ready
                    (sentinel err_unprocessed_control_plane_endpoint) (requeue_after 1) =
                  no_address p y in
                rw same at c
          ])

    pub endpoint-HasCause :
        (remote : Option K.Client) (tcp : TenantControlPlane F) (run : Run K)
        → Reached K r cluster begin (addressed remote tcp) run
        → HasCause (endpoint_step K tcp.status.control_plane_endpoint) run
    unfolding endpoint_step
    endpoint-HasCause remote tcp run p =
        tracked-HasCause control_plane_endpoint_patched failed
          (patch_control_plane_endpoint K tcp.status.control_plane_endpoint) run
          (λ e x. not_published p x)

    pub cluster-HasCause :
        (remote : Option K.Client) (tcp : TenantControlPlane F) (run : Run K)
        → Reached K r cluster begin (published remote tcp) run
        → HasCause (cluster_step K (key_of cluster.meta)) run
    unfolding cluster_step
    cluster-HasCause remote tcp run p run' o h =
        elim (Result-cases (K.get_cluster (key_of cluster.meta) run.world).0) [
          | inl (c, q) ↦ ground arith
          | inr (e, q) ↦ elim (Bool-cases (is_not_found e)) [
            | inl y ↦
                let same : finished ≡ o = ground arith in
                let c : Cause K r cluster begin finished run' = gone e p (ground arith) y in
                rw same at c
            | inr n ↦
                let same : failed e ≡ o = ground arith in
                let c : Cause K r cluster begin (failed e) run' = unread p (ground arith) n in
                rw same at c
          ]
        ]
