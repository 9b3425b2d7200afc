-- ===== src/Controller/Run.antt =====
-- The variables of one call of `KamajiControlPlaneReconciler.Reconcile`, the fields of the
-- reconciler, and `updateKamajiControlPlaneStatus`.
pub mod Laws
use cluster_api_control_plan.Base.{String, Bool, List}
use cluster_api_control_plan.Errors.{Result, ok, err, sentinel, err_update, suffixed, error_text}
use cluster_api_control_plan.Objects.{
  Foreign, KamajiControlPlane, KamajiControlPlaneStatus, Condition, key_of,
}
use cluster_api_control_plan.Kube.{Kube}
use cluster_api_control_plan.ExternalCluster.Store.{Store}

-- FeatureGates.Enabled, DynamicInfrastructureClusters.Has, and the store at the time of its one
-- `Get`.
pub record Reconciler {F : Foreign} (K : Kube F) : Type 0 where
  pub enabled : String → Bool
  pub dynamic_infrastructure_clusters : String → Bool
  pub store : Store K.Manager

-- `conditions` is the local variable, and not the field of `kcp`.
pub record Run {F : Foreign} (K : Kube F) : Type 0 where
  pub world : K.World
  pub kcp : KamajiControlPlane F
  pub conditions : List Condition

-- A call that may fail and works on these variables.
abbrev pub Action : {F : Foreign} → Kube F → Type 0 → Type 0
Action K A = Run K → Result A × Run K

module _ {F : Foreign} (K : Kube F) where
  -- One run of the closure in updateKamajiControlPlaneStatus, on `kcp` and the world.
  unfoldable pub status_attempt :
      (KamajiControlPlaneStatus → KamajiControlPlaneStatus)
      → KamajiControlPlane F × K.World
      → Result (Unit {0}) × (KamajiControlPlane F × K.World)
  status_attempt modifier (kcp, w) =
      let (r, w1) = K.get_kcp (key_of kcp.meta) w in
      elim r [
        | err e ↦ (err e, (kcp, w1))
        | ok fresh ↦
            let sent = record fresh { status = modifier fresh.status } in
            let (r2, w2) = K.update_kcp_status sent w1 in
            elim r2 [ err e ↦ (err e, (sent, w2)) | ok answer ↦ (ok tt, (answer, w2)) ]
      ]

  abbrev update_failed : Result (Unit {0}) → Result (Unit {0})
  update_failed (ok u) = ok u
  update_failed (err e) = err (suffixed (sentinel err_update) (error_text e))

  unfoldable pub update_kamaji_control_plane_status :
      (KamajiControlPlaneStatus → KamajiControlPlaneStatus) → Action K (Unit {0})
  unfolding status_attempt
  update_kamaji_control_plane_status modifier run =
      let (r, (kcp, w)) =
        K.retry_on_conflict (KamajiControlPlane F × K.World) (status_attempt modifier)
          (run.kcp, run.world) in
      (update_failed r, record run { kcp = kcp; world = w })
