-- ===== src/Controller/Finalizer.antt =====
-- controllers/kamajicontrolplane_finalizer.go: the finalizer of an object whose TenantControlPlane
-- is in another cluster, and the deletion of that TenantControlPlane.
pub mod Laws
pub mod Removal
use cluster_api_control_plan.Base.{
  String, Bool, true, false, ◌||◌, not, Option, none, some, is_none, if◌then◌else◌,
}
use cluster_api_control_plan.Errors.{Error, Result, ok, err, is_not_found}
use cluster_api_control_plan.Objects.{Foreign, KamajiControlPlane, ObjectKey, key_of}
use cluster_api_control_plan.Kube.{Kube}
use cluster_api_control_plan.ExternalCluster.Names.{generate_remote_tenant_control_plane_names}
use cluster_api_control_plan.Controller.Run.{Reconciler}
use cluster_api_control_plan.Controller.ExternalReference.{extract_remote_client}

abbrev pub ecr_finalizer : String
ecr_finalizer = "ecr.kamaji.clastix.io/finalizer"

module _ {F : Foreign} (K : Kube F) where
  -- An object with the finalizers of a set.
  abbrev pub with_finalizers : K.StringSet → KamajiControlPlane F → KamajiControlPlane F
  with_finalizers set kcp = record kcp {
    meta = record kcp.meta { finalizers = K.unsorted_list set };
  }

  -- One run of the closure in handleFinalizer, on the set, `kcp` and the world.
  unfoldable pub add_attempt :
      K.StringSet × KamajiControlPlane F × K.World
      → Result (Unit {0}) × (K.StringSet × KamajiControlPlane F × K.World)
  add_attempt (set, kcp, w) =
      let (r, w1) = K.get_kcp (key_of kcp.meta) w in
      elim r [
        | err e ↦ (err e, (set, kcp, w1))
        | ok fresh ↦
            let set1 = K.set_insert set ecr_finalizer in
            let sent = with_finalizers set1 fresh in
            let (r2, w2) = K.update_kcp sent w1 in
            elim r2 [ err e ↦ (err e, (set1, sent, w2)) | ok answer ↦ (ok tt, (set1, answer, w2)) ]
      ]

  unfoldable pub handle_finalizer :
      KamajiControlPlane F → K.World → Result (Unit {0}) × (KamajiControlPlane F × K.World)
  unfolding add_attempt
  handle_finalizer kcp w =
      let set = K.new_set kcp.meta.finalizers in
      if K.set_has set ecr_finalizer
      then (ok tt, (kcp, w))
      else let (r, (set1, kcp1, w1)) =
          K.retry_on_conflict (K.StringSet × KamajiControlPlane F × K.World) add_attempt
            (set, kcp, w) in
        (r, (kcp1, w1))

  -- One run of the closure in handleDeletion, on its copy of `kcp` and the world.
  unfoldable pub remove_attempt :
      KamajiControlPlane F × K.World → Result (Unit {0}) × (KamajiControlPlane F × K.World)
  remove_attempt (kcp, w) =
      let (r, w1) = K.get_kcp (key_of kcp.meta) w in
      elim r [
        | err e ↦ (err e, (kcp, w1))
        | ok fresh ↦
            let set = K.set_delete (K.new_set fresh.meta.finalizers) ecr_finalizer in
            let sent = with_finalizers set fresh in
            let (r2, w2) = K.update_kcp sent w1 in
            elim r2 [ err e ↦ (err e, (sent, w2)) | ok answer ↦ (ok tt, (answer, w2)) ]
      ]

  -- What is left of handleDeletion when the TenantControlPlane has been deleted.
  unfoldable pub remove_finalizer : KamajiControlPlane F → K.World → Result (Unit {0}) × K.World
  unfolding remove_attempt
  remove_finalizer kcp w =
      let (r, (kcp1, w1)) =
        K.retry_on_conflict (KamajiControlPlane F × K.World) remove_attempt (kcp, w) in
      elim r [ ok u ↦ (ok tt, w1) | err e ↦ if is_not_found e then (ok tt, w1) else (err e, w1) ]

  unfoldable pub delete_remote_tenant :
      KamajiControlPlane F → K.Client → K.World → Result (Unit {0}) × K.World
  unfolding remove_finalizer
  delete_remote_tenant kcp remote w = elim (generate_remote_tenant_control_plane_names kcp) [
    | err e ↦ (err e, w)
    | ok (name, namespace) ↦
        let (r, w1) = K.delete_tenant remote (record { namespace = namespace; name = name }) w in
        elim r [
          | err e ↦ if is_not_found e then (ok tt, w1) else (err e, w1)
          | ok u ↦ remove_finalizer kcp w1
        ]
  ]

  unfoldable pub handle_deletion :
      Reconciler K → KamajiControlPlane F → K.World → Result (Unit {0}) × K.World
  unfolding delete_remote_tenant
  handle_deletion r kcp w =
      if not (K.set_has (K.new_set kcp.meta.finalizers) ecr_finalizer)
        || is_none kcp.spec.deployment.external_cluster_reference
      then (ok tt, w)
      else let (remote, w1) = extract_remote_client K r kcp w in
        elim remote [ err e ↦ (err e, w1) | ok client ↦ delete_remote_tenant kcp client w1 ]
