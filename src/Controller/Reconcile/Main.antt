-- ===== src/Controller/Reconcile/Main.antt =====
-- The whole of `Reconcile`.
use cluster_api_control_plan.Objects.{
  TenantControlPlane, Foreign, KamajiControlPlane, Cluster, Condition, ObjectKey, OwnerReference,
  key_of, status_true,
}
use cluster_api_control_plan.Base.{Option, List, [], ◌∷◌, if◌then◌else◌, is_some}
use cluster_api_control_plan.Errors.{Error, Result, ok, err, is_not_found}
use cluster_api_control_plan.Kube.{Kube}
use cluster_api_control_plan.Controller.Run.{Reconciler, Run, update_kamaji_control_plane_status}
use cluster_api_control_plan.Controller.Conditions.{paused}
use cluster_api_control_plan.Controller.Finalizer.{handle_deletion}
use cluster_api_control_plan.Controller.Reconcile.Chain.{
  Outcome, finished, failed, Flow, next, return, Exec, ◌>>=◌, ◌>>◌,
}
use cluster_api_control_plan.Controller.Reconcile.Steps.{
  remote_step, tenant_step, address_step, endpoint_step, cluster_step, infrastructure_step,
  wait_step, initialize_step, initialized_step, scale_step, confirm_step, resources_step,
  ready_step,
}

module _ {F : Foreign} (K : Kube F) where
  -- With the Cluster as it was read again.
  unfoldable pub settle_steps :
      Reconciler K → Option K.Client → Cluster → TenantControlPlane F → Exec K (Unit {0})
  settle_steps r remote fresh tcp = do
    infrastructure_step K r fresh tcp.status.control_plane_endpoint
    v ← wait_step K fresh tcp
    initialize_step K v
    initialized_step K
    scale_step K tcp
    confirm_step K
    resources_step K remote fresh tcp
    ready_step K v

  -- From the published endpoint on.
  unfoldable pub report_steps :
      Reconciler K → Option K.Client → Cluster → TenantControlPlane F → Exec K (Unit {0})
  report_steps r remote cluster tcp =
      cluster_step K (key_of cluster.meta) >>= λ fresh. settle_steps r remote fresh tcp

  unfoldable pub steps : Reconciler K → Cluster → Exec K (Unit {0})
  steps r cluster = do
    remote ← remote_step K r
    tcp ← tenant_step K remote cluster
    address_step K tcp.status.control_plane_endpoint
    endpoint_step K tcp.status.control_plane_endpoint
    report_steps r remote cluster tcp

  abbrev outcome_of : Flow (Unit {0}) → Outcome
  outcome_of (next u) = finished
  outcome_of (return o) = o

  -- The status that the deferred function sends.
  abbrev pub send_conditions : Run K → K.World
  send_conditions run =
      (update_kamaji_control_plane_status K (λ s. record s { conditions = run.conditions })
        run).1.world

  -- For an object that is neither paused nor being deleted.
  unfoldable pub reconcile_normal :
      Reconciler K → Cluster → KamajiControlPlane F → K.World → Outcome × K.World
  reconcile_normal r cluster kcp w =
      let (flow, run) = steps r cluster (record {
        world = w;
        kcp = kcp;
        conditions = K.remove_status_condition kcp.status.conditions paused;
      }) in
      (outcome_of flow, send_conditions run)

  paused_condition : KamajiControlPlane F → Condition
  paused_condition kcp = record {
    kind = paused;
    status = status_true;
    observed_generation = kcp.meta.generation;
    last_transition_time = 0;
    reason = "Paused";
    message = "";
  }

  unfoldable pub report_paused : KamajiControlPlane F → K.World → K.World
  unfolding paused_condition
  report_paused kcp w =
      let (now, w1) = K.now w in
      send_conditions (record {
        world = w1;
        kcp = kcp;
        conditions = K.set_status_condition now kcp.status.conditions (paused_condition kcp);
      })

  abbrev of_result : Result (Unit {0}) → Outcome
  of_result (ok u) = finished
  of_result (err e) = failed e

  -- With the Cluster at hand.
  unfoldable pub reconcile_cluster :
      Reconciler K → Cluster → KamajiControlPlane F → K.World → Outcome × K.World
  reconcile_cluster r cluster kcp w =
      if K.is_paused cluster kcp
      then (finished, report_paused kcp w)
      else if is_some kcp.meta.deletion_timestamp
      then (let (result, w1) = handle_deletion K r kcp w in (of_result result, w1))
      else reconcile_normal r cluster kcp w

  abbrev pub missing_or_failed : Error → Outcome
  missing_or_failed e = if is_not_found e then finished else failed e

  -- With the object at hand: its first owner is the Cluster.
  unfoldable pub reconcile_object :
      Reconciler K → KamajiControlPlane F → List OwnerReference → K.World → Outcome × K.World
  reconcile_object r kcp [] w = (finished, w)
  reconcile_object r kcp (owner ∷ owners) w =
      let (found, w1) =
        K.get_cluster (record { namespace = kcp.meta.namespace; name = owner.name }) w in
      elim found [
        | err e ↦ (missing_or_failed e, w1)
        | ok cluster ↦ reconcile_cluster r cluster kcp w1
      ]

  unfoldable pub reconcile : Reconciler K → ObjectKey → K.World → Outcome × K.World
  reconcile r request w =
      let (found, w1) = K.get_kcp request w in
      elim found [
        | err e ↦ (missing_or_failed e, w1)
        | ok kcp ↦ reconcile_object r kcp kcp.meta.owner_references w1
      ]
