-- ===== src/Controller/Reconcile/Success.antt =====
-- When `Reconcile` reports success for an object that is neither paused nor being deleted.
use cluster_api_control_plan.Controller.Reconcile.Main.{
  settle_steps, steps, report_steps, reconcile_normal,
}
use cluster_api_control_plan.Controller.Reconcile.Chain.{
  ◌>>=◌, ◌>>◌, next, Outcome, finished, return, Exec,
}
use cluster_api_control_plan.Objects.{
  ObjectKey, KamajiControlPlane, Foreign, TenantControlPlane, Cluster, key_of,
}
use cluster_api_control_plan.Base.{Option, ◌⊎◌, ◌≡◌, true, inl, inr, arith}
use cluster_api_control_plan.Controller.Reconcile.Completion.{IsComplete, steps-IsComplete}
use cluster_api_control_plan.Controller.Conditions.{paused}
use cluster_api_control_plan.Controller.Reconcile.Steps.{
  tenant_step, address_step, endpoint_step, remote_step, cluster_step,
}
use cluster_api_control_plan.Errors.{Error, err, is_not_found, Result-cases}
use cluster_api_control_plan.Kube.{Kube}
use cluster_api_control_plan.Controller.Run.{Reconciler, Run}
use cluster_api_control_plan.Controller.Reconcile.Inversion.{Flow-cases}
use cluster_api_control_plan.Controller.Reconcile.Early.{
  OnlyIf, Ends-remote_step, Ends-tenant_step, Ends-address_step, Ends-endpoint_step,
  Ends-settle_steps,
}

module _ {F : Foreign} (K : Kube F) where
  -- What an early return from one run of a chain has.
  abbrev EndsAt : {A : Type 0} → (Outcome → Type 0) → Exec K A → Run K → Type 0
  EndsAt P m run = (run' : Run K) (o : Outcome) → m run ≡ (return o, run') → P o

  EndsAt-bind :
      {A B : Type 0} (P : Outcome → Type 0) (m : Exec K A) (f : A → Exec K B) (run : Run K)
      → EndsAt P m run
      → ((a : A) (run1 : Run K) → m run ≡ (next a, run1) → EndsAt P (f a) run1)
      → EndsAt P (m >>= f) run
  EndsAt-bind P m f run i j run' o h = elim (Flow-cases (m run).0) [
    | inl (a, q) ↦ j a (m run).1 (ground arith) run' o (ground arith)
    | inr (o1, q) ↦ i run' o (ground arith)
  ]

  -- The Cluster could not be found when it was read again, after the endpoint was published.
  pub record IsGone (r : Reconciler K) (cluster : Cluster) (run : Run K) : Type 0 where
    pub remote : Option K.Client
    pub tcp : TenantControlPlane F
    pub before : Run K
    pub created : Run K
    pub addressed : Run K
    pub between : Run K
    pub error : Error
    pub to_before : remote_step K r run ≡ (next remote, before)
    pub to_created : tenant_step K remote cluster before ≡ (next tcp, created)
    pub to_addressed :
        address_step K tcp.status.control_plane_endpoint created ≡ (next tt, addressed)
    pub to_between :
        endpoint_step K tcp.status.control_plane_endpoint addressed ≡ (next tt, between)
    pub is_answered : (K.get_cluster (key_of cluster.meta) between.world).0 ≡ err error
    pub is_missing : is_not_found error ≡ true

  EndsAt-cluster_step :
      (G : Type 0) (key : ObjectKey) (run : Run K)
      → ((e : Error) → (K.get_cluster key run.world).0 ≡ err e → is_not_found e ≡ true → G)
      → EndsAt (OnlyIf G) (cluster_step K key) run
  unfolding cluster_step
  EndsAt-cluster_step G key run i run' o h f = elim (Result-cases (K.get_cluster key run.world).0) [
    | inl (c, q) ↦ ground arith
    | inr (e, q) ↦ i e q (ground arith)
  ]

  EndsAt-report_steps :
      (G : Type 0) (r : Reconciler K) (remote : Option K.Client) (cluster : Cluster)
      (tcp : TenantControlPlane F) (run : Run K)
      → ((e : Error)
          → (K.get_cluster (key_of cluster.meta) run.world).0 ≡ err e
          → is_not_found e ≡ true
          → G)
      → EndsAt (OnlyIf G) (report_steps K r remote cluster tcp) run
  unfolding report_steps
  EndsAt-report_steps G r remote cluster tcp run i =
      EndsAt-bind (OnlyIf G) (cluster_step K (key_of cluster.meta))
        (λ fresh. settle_steps K r remote fresh tcp) run
        (EndsAt-cluster_step G (key_of cluster.meta) run i)
        (λ fresh run1 _. Ends-settle_steps K G r remote fresh tcp run1)

  EndsAt-steps :
      (r : Reconciler K) (cluster : Cluster) (run : Run K)
      → EndsAt (OnlyIf (IsGone r cluster run)) (steps K r cluster) run
  unfolding steps
  EndsAt-steps r cluster run =
      let G : Type 0 = IsGone r cluster run in
      let P : Outcome → Type 0 = OnlyIf G in
      let report : Option K.Client → TenantControlPlane F → Exec K (Unit {0}) =
        λ remote tcp. report_steps K r remote cluster tcp in
      let publish : Option K.Client → TenantControlPlane F → Exec K (Unit {0}) =
        λ remote tcp. endpoint_step K tcp.status.control_plane_endpoint >> report remote tcp in
      let address : Option K.Client → TenantControlPlane F → Exec K (Unit {0}) =
        λ remote tcp. address_step K tcp.status.control_plane_endpoint >> publish remote tcp in
      EndsAt-bind P (remote_step K r) (λ remote. tenant_step K remote cluster >>= address remote)
        run (Ends-remote_step K G r run)
        (λ remote before e1.
          EndsAt-bind P (tenant_step K remote cluster) (address remote) before
            (Ends-tenant_step K G remote cluster before)
            (λ tcp created e2.
              EndsAt-bind P (address_step K tcp.status.control_plane_endpoint)
                (λ _. publish remote tcp) created
                (Ends-address_step K G tcp.status.control_plane_endpoint created)
                (λ _ addressed e3.
                  EndsAt-bind P (endpoint_step K tcp.status.control_plane_endpoint)
                    (λ _. report remote tcp) addressed
                    (Ends-endpoint_step K G tcp.status.control_plane_endpoint addressed)
                    (λ _ between e4. EndsAt-report_steps G r remote cluster tcp between (λ e q m.
                      record {
                        remote = remote;
                        tcp = tcp;
                        before = before;
                        created = created;
                        addressed = addressed;
                        between = between;
                        error = e;
                        to_before = e1;
                        to_created = e2;
                        to_addressed = e3;
                        to_between = e4;
                        is_answered = q;
                        is_missing = m;
                      })))))

  -- The variables with which the steps begin.
  abbrev pub start : KamajiControlPlane F → K.World → Run K
  start kcp w = record {
    world = w;
    kcp = kcp;
    conditions = K.remove_status_condition kcp.status.conditions paused;
  }

  -- Success, with nothing to be enqueued again, is reported only if the steps got to their end, with
  -- all that this implies, or if the Cluster could not be found when it was read again.
  pub reconcile_normal-IsComplete :
      (r : Reconciler K) (cluster : Cluster) (kcp : KamajiControlPlane F) (w : K.World)
      → (reconcile_normal K r cluster kcp w).0 ≡ finished
      → IsComplete K r cluster (start kcp w) (steps K r cluster (start kcp w)).1
        ⊎ IsGone r cluster (start kcp w)
  unfolding reconcile_normal
  reconcile_normal-IsComplete r cluster kcp w h =
      elim (Flow-cases (steps K r cluster (start kcp w)).0) [
        | inl (u, q) ↦ inl (steps-IsComplete K r cluster (start kcp w) (ground arith))
        | inr (o, q) ↦ inr (
            EndsAt-steps r cluster (start kcp w) (steps K r cluster (start kcp w)).1 o
              (ground arith) (ground arith))
      ]
