-- ===== src/Controller/Push.antt =====
-- controllers/externalclusterreference_controller.go: `PushKamajiChange`, which watches the
-- TenantControlPlanes of another cluster and triggers the reconciliation of their
-- KamajiControlPlanes.
use cluster_api_control_plan.Base.{
  true, String, ◌==◌, ◌≡◌, ◌≢◌, ◌<>◌, List, [], map, arith, if◌then◌else◌, ==-of_ne, Option-cases,
  inl, inr,
}
use cluster_api_control_plan.Errors.{Result, ok, err, is_not_found}
use cluster_api_control_plan.Objects.{
  Foreign, KamajiControlPlane, TenantControlPlane, ObjectKey, key_of,
}
use cluster_api_control_plan.Kube.{Kube}
use cluster_api_control_plan.ExternalCluster.Names.{
  remote_tcp_prefix, parse_kamaji_control_plane_uid, generate_remote_tenant_control_plane_names,
}
use cluster_api_control_plan.ExternalCluster.Names.Laws.{uid_of_name-prefix}

-- indexers.KamajiControlPlaneUIDField
abbrev pub kamaji_uid_field : String
kamaji_uid_field = "kamajiControlPlaneUID"

module _ {F : Foreign} (K : Kube F) where
  -- PushKamajiChange.SetupWithManager, with SkipNameValidation: every manager has one of that name.
  abbrev pub setup_push : K.Manager → K.World → Result (Unit {0}) × K.World
  setup_push mgr w = K.complete mgr "TenantControlPlane" true w

  -- The events of one loop over the list.
  abbrev pub events : List (KamajiControlPlane F) → List ObjectKey
  events kcps = map (λ k. key_of k.meta) kcps

  unfoldable pub push_change :
      TenantControlPlane F → K.World → Result (Unit {0}) × (List ObjectKey × K.World)
  push_change tcp w =
      let value = parse_kamaji_control_plane_uid tcp in
      if value == ""
      then (ok tt, ([], w))
      else let (found, w1) = K.list_kcps kamaji_uid_field value w in
        elim found [ err e ↦ (err e, ([], w1)) | ok kcps ↦ (ok tt, (events kcps, w1)) ]

  -- The result and what is sent to the channel, which is read by the other controller.
  unfoldable pub push_reconcile :
      K.Client → ObjectKey → K.World → Result (Unit {0}) × (List ObjectKey × K.World)
  unfolding push_change
  push_reconcile client request w =
      let (found, w1) = K.get_tenant client request w in
      elim found [
        | err e ↦ if is_not_found e then (ok tt, ([], w1)) else (err e, ([], w1))
        | ok tcp ↦ push_change tcp w1
      ]

  -- A change of the TenantControlPlane that has the remote name of a KamajiControlPlane with a UID
  -- triggers exactly the objects that the index lists for that UID.
  pub push_reconcile-events :
      (client : K.Client) (request : ObjectKey) (w w1 w2 : K.World) (tcp : TenantControlPlane F)
      (kcp : KamajiControlPlane F) (namespace : String) (kcps : List (KamajiControlPlane F))
      → K.get_tenant client request w ≡ (ok tcp, w1)
      → generate_remote_tenant_control_plane_names kcp ≡ ok (tcp.meta.name, namespace)
      → kcp.meta.uid ≢ ""
      → K.list_kcps kamaji_uid_field kcp.meta.uid w1 ≡ (ok kcps, w2)
      → push_reconcile client request w ≡ (ok tt, (events kcps, w2))
  unfolding push_reconcile generate_remote_tenant_control_plane_names parse_kamaji_control_plane_uid
  push_reconcile-events client request w w1 w2 tcp kcp namespace kcps found named ne listed =
      elim (Option-cases kcp.spec.deployment.external_cluster_reference) [
        | inl q ↦ ground arith
        | inr (ref, q) ↦
            let e : remote_tcp_prefix <> kcp.meta.uid ≡ tcp.meta.name = ground arith in
            ground (arith, e, uid_of_name-prefix kcp.meta.uid, ==-of_ne kcp.meta.uid "" ne)
      ]
