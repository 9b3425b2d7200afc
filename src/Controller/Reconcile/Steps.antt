-- ===== src/Controller/Reconcile/Steps.antt =====
-- The steps of `Reconcile` for an object that is neither paused nor being deleted.
use cluster_api_control_plan.Base.{
  ◌<>◌, String, ◌==◌, Bool, true, false, not, ◌&&◌, ◌||◌, Option, none, some, if◌then◌else◌,
}
use cluster_api_control_plan.Errors.{
  Error, Result, ok, err, sentinel, prefixed, is_enqueue_back, is_not_found, err_enqueue_back,
  err_unprocessed_control_plane_endpoint,
}
use cluster_api_control_plan.Objects.{
  Foreign, KamajiControlPlane, KamajiControlPlaneStatus, TenantControlPlane, TenantStatus, Cluster,
  Condition, VersionStatus, version_ready, version_upgrading, ObjectKey,
  is_control_plane_initialized, set_control_plane_initialized, status_true, status_false,
}
use cluster_api_control_plan.Kube.{Kube}
use cluster_api_control_plan.Controller.Run.{
  Reconciler, Run, Action, update_kamaji_control_plane_status,
}
use cluster_api_control_plan.Controller.Conditions.{
  track_condition_type, found_external_cluster_reference, tenant_control_plane_created,
  tenant_control_plane_address_ready, control_plane_endpoint_patched,
  infrastructure_cluster_patched, kamaji_control_plane_initialized, kamaji_control_plane_ready,
  kubeadm_resources_created, available,
}
use cluster_api_control_plan.Controller.ExternalReference.{
  extract_remote_client, skip_infra_cluster_patch,
}
use cluster_api_control_plan.Controller.Finalizer.{handle_finalizer}
use cluster_api_control_plan.Controller.Tenant.{create_or_update_tenant_control_plane}
use cluster_api_control_plan.Controller.ClusterPatch.Endpoint.{patch_control_plane_endpoint}
use cluster_api_control_plan.Controller.ClusterPatch.Infrastructure.{patch_cluster}
use cluster_api_control_plan.Controller.Resources.{create_required_resources}
use cluster_api_control_plan.Controller.Reconcile.Chain.{
  Outcome, finished, requeue_after, failed, Exec, pure, stop, or_return, ◌>>=◌, ◌>>◌,
}

-- errors.Is(err, ErrEnqueueBack)
abbrev pub back_or_fail : Error → Outcome
back_or_fail e = if is_enqueue_back e then requeue_after 1 else failed e

abbrev pub back : Error → Outcome
back e = requeue_after 1

abbrev pub is_ready : VersionStatus → Bool
is_ready version_ready = true
is_ready _ = false

abbrev pub is_upgrading : VersionStatus → Bool
is_upgrading version_upgrading = true
is_upgrading _ = false

abbrev pub deref : Option Bool → Bool
deref none = false
deref (some b) = b

module _ {F : Foreign} (K : Kube F) where
  -- A step under `TrackConditionType`, with the generation of the object at that time.
  unfoldable pub tracked : {A : Type 0} → String → (Error → Outcome) → Action K A → Exec K A
  tracked t f action run = or_return f (track_condition_type K t run.kcp.meta.generation action) run

  -- A call that works on the world alone.
  abbrev pub on_world :
      {A : Type 0} → (KamajiControlPlane F → K.World → Result A × K.World) → Action K A
  on_world f run = let (r, w) = f run.kcp run.world in (r, record run { world = w })

  -- A call that works on the world and on the object.
  abbrev pub on_kcp :
      {A : Type 0}
      → (KamajiControlPlane F → K.World → Result A × (KamajiControlPlane F × K.World))
      → Action K A
  on_kcp f run = let (r, (kcp, w)) = f run.kcp run.world in (r, record run { kcp = kcp; world = w })

  -- The client of the other cluster, if the object refers to one.
  unfoldable pub remote_step : Reconciler K → Exec K (Option K.Client)
  unfolding tracked
  remote_step r run = elim run.kcp.spec.deployment.external_cluster_reference [
    | none ↦ pure none run
    | some ref ↦
        (do
          remote ←
              tracked found_external_cluster_reference failed (on_world (extract_remote_client K r))
          or_return failed (on_kcp (handle_finalizer K))
          pure (some remote))
          run
  ]

  unfoldable pub tenant_step : Option K.Client → Cluster → Exec K (TenantControlPlane F)
  unfolding tracked
  tenant_step remote cluster =
      tracked tenant_control_plane_created failed
        (on_kcp (create_or_update_tenant_control_plane K remote cluster))

  abbrev pub check_address : String → Action K (Unit {0})
  check_address endpoint run =
      (if endpoint == "" then err (sentinel err_unprocessed_control_plane_endpoint) else ok tt, run)

  unfoldable pub address_step : String → Exec K (Unit {0})
  unfolding tracked
  address_step endpoint = tracked tenant_control_plane_address_ready back (check_address endpoint)

  unfoldable pub endpoint_step : String → Exec K (Unit {0})
  unfolding tracked
  endpoint_step endpoint =
      tracked control_plane_endpoint_patched failed (patch_control_plane_endpoint K endpoint)

  -- `client.Get` of the Cluster, which may be gone.
  unfoldable pub cluster_step : ObjectKey → Exec K Cluster
  cluster_step key =
      or_return (λ e. if is_not_found e then finished else failed e)
        (on_world (λ _. K.get_cluster key))

  unfoldable pub infrastructure_step : Reconciler K → Cluster → String → Exec K (Unit {0})
  unfolding tracked
  infrastructure_step r cluster endpoint =
      if r.enabled skip_infra_cluster_patch
      then pure tt
      else tracked infrastructure_cluster_patched failed
          (on_world (λ kcp. patch_cluster K r cluster kcp endpoint))

  -- The three waits on the Cluster and on the TenantControlPlane.
  unfoldable pub wait_step : Cluster → TenantControlPlane F → Exec K VersionStatus
  wait_step cluster tcp =
      if cluster.control_plane_endpoint.host == ""
      then stop (requeue_after 1)
      else if not (deref cluster.infrastructure_provisioned)
      then stop (requeue_after 1)
      else elim tcp.status.version_status [ none ↦ stop (requeue_after 1) | some v ↦ pure v ]

  abbrev pub mark_initialized : Action K (Unit {0})
  mark_initialized = update_kamaji_control_plane_status K (set_control_plane_initialized true)

  unfoldable pub initialize_step : VersionStatus → Exec K (Unit {0})
  unfolding tracked
  initialize_step v run =
      (if is_ready v && not (is_control_plane_initialized run.kcp.status)
          then tracked kamaji_control_plane_initialized failed mark_initialized
          else pure tt)
        run

  unfoldable pub initialized_step : Exec K (Unit {0})
  initialized_step run =
      (if not (is_control_plane_initialized run.kcp.status)
          then stop (requeue_after 1)
          else pure tt)
        run

  abbrev pub scaled : TenantStatus → KamajiControlPlaneStatus → KamajiControlPlaneStatus
  scaled t s = record s {
    ready_replicas = some t.ready_replicas;
    replicas = some t.replicas;
    selector = some t.selector;
    available_replicas = some t.available_replicas;
    up_to_date_replicas = some t.updated_replicas;
    version = t.version;
  }

  unfoldable pub scale_step : TenantControlPlane F → Exec K (Unit {0})
  unfolding tracked
  scale_step tcp =
      tracked kamaji_control_plane_initialized failed
        (update_kamaji_control_plane_status K (scaled tcp.status))

  -- The error of this update is not looked at.
  unfoldable pub confirm_step : Exec K (Unit {0})
  confirm_step run =
      let (r, run1) =
        track_condition_type K kamaji_control_plane_initialized run.kcp.meta.generation
          mark_initialized run in
      pure tt run1

  unfoldable pub resources_step :
      Option K.Client → Cluster → TenantControlPlane F → Exec K (Unit {0})
  unfolding tracked
  resources_step remote cluster tcp =
      tracked kubeadm_resources_created back_or_fail
        (on_world (λ kcp. create_required_resources K remote cluster kcp tcp))

  abbrev pub with_ready : VersionStatus → KamajiControlPlaneStatus → KamajiControlPlaneStatus
  with_ready v s = record s { ready = is_ready v || is_upgrading v }

  -- The closure of the last tracked step.
  unfoldable pub report_ready : VersionStatus → Action K (Unit {0})
  report_ready v run =
      let (r, run1) = update_kamaji_control_plane_status K (with_ready v) run in
      elim r [
        | err e ↦ (err e, run1)
        | ok u ↦ (
          if not run1.kcp.status.ready
              then err (
                  prefixed ("TenantControlPlane in " <> K.version_text v <> " status, ")
                    (sentinel err_enqueue_back))
              else ok tt,
          run1,
        )
      ]

  available_condition : KamajiControlPlane F → Condition
  available_condition kcp = record {
    kind = available;
    status = if kcp.status.ready then status_true else status_false;
    observed_generation = kcp.meta.generation;
    last_transition_time = 0;
    reason = if kcp.status.ready then "Available" else "NotAvailable";
    message = "";
  }

  unfoldable pub set_available : Run K → Run K
  unfolding available_condition
  set_available run =
      let (now, w) = K.now run.world in
      record run {
        world = w;
        conditions = K.set_status_condition now run.conditions (available_condition run.kcp);
      }

  -- The closure assigns the error of the update to `err`, and only returns the one of an object that
  -- is not ready: the latter goes into the condition, and the former is looked at afterwards.
  unfoldable pub ready_step : VersionStatus → Exec K (Unit {0})
  unfolding report_ready set_available
  ready_step v = or_return back_or_fail (λ run.
      let assigned = (update_kamaji_control_plane_status K (with_ready v) run).0 in
      let (r, run1) =
        track_condition_type K kamaji_control_plane_ready run.kcp.meta.generation (report_ready v)
          run in
      (assigned, set_available run1))
